-- ===== src/Fiemap/Running.antt =====
-- The flag of a watcher in src/xal_be_fiemap_inotify.c.
use xallib.Prelude.{◌-◌, ◌/◌, ◌%◌, ◌<◌, ◌≡◌, refl, true, none, ◌==◌, arith}
use xallib.Result.{ok}
use xallib.Fiemap.State.{Env, Fiemap, Inotify}
use xallib.Fiemap.Watch.{with_inotify}
use xallib.Fiemap.Events.{watching, stop_watching_filesystem}

module _ (env : Env) where
  -- A handle that watches, whose flag has no bit but the lowest and whose thread can be
  -- cancelled, is stopped with success whether or not its thread is running.
  pub stop_watching_filesystem_any :
      (s : Fiemap) (inotify : Inotify)
      → watching env s ≡ ok inotify
      → inotify.flag < 2
      → env.pthread_cancel inotify.watch_thread_id ≡ none
      → stop_watching_filesystem env s ≡ (ok tt, with_inotify s (record inotify { flag = 0 }))
  unfolding stop_watching_filesystem
  stop_watching_filesystem_any s inotify w small cancelled =
      let other : (inotify.flag / 2 == 0) ≡ true = ground arith in
      let cleared : inotify.flag - inotify.flag % 2 ≡ 0 = omega arith in
      simp (stop_watching_filesystem, w, other, cancelled, cleared) refl
