-- ===== src/Xfs/Device.antt =====
-- `dev_read` and `dev_read_into`: reads through the one IO buffer.
use xallib.Prelude.{ℕ, ◌/◌, ◌%◌, ◌^◌, ◌≡◌, ◌≢◌, none, some, ltb, ◌==◌, if◌then◌else◌, arith}
use xallib.Word.{sub_size}
use xallib.Result.{Exec, ok, err, einval, eio, stuck, ◌>>◌}
use xallib.Bytes.{Buf}
use xallib.Xfs.State.{Env, Xfs}

-- `new` in the first `count` bytes, `old` behind them
abbrev pub overlay : ℕ → Buf → Buf → Buf
overlay count new old o = if ltb o count then new o else old o

abbrev pub zeros : Buf
zeros o = 0

module _ (env : Env) where
  -- After the checks the buffer is zeroed and read into. A read that fails leaves it zeroed here.
  unfoldable pub dev_read : (count offset : ℕ) → Exec Xfs (Unit {0})
  dev_read count offset s =
      let geo = env.device in
      if ltb geo.mdts_nbytes count
      then (err einval, s)
      else if count % geo.lba_nbytes == 0
      then if offset % geo.lba_nbytes == 0
        then (elim (geo.nvm_read (offset / geo.lba_nbytes)
            (sub_size (count / geo.lba_nbytes) 1 % 2 ^ 16)) [
              | none ↦ (err eio, record s { buf = overlay count zeros s.buf })
              | some bytes ↦ (ok tt, record s { buf = overlay count bytes s.buf })
            ])
        else (err einval, s)
      else (err einval, s)

  -- The copy goes to a local buffer, which every caller has zeroed.
  pub dev_read_into : (count offset : ℕ) → Exec Xfs Buf
  dev_read_into count offset = do dev_read count offset; λ s. (ok (overlay count s.buf zeros), s)

  -- A read changes the IO buffer and nothing else of the state, and never runs out of fuel.
  pub dev_read_keeps :
      (count offset : ℕ) (s : Xfs)
      → ((dev_read count offset s).1.xal ≡ s.xal) × ((dev_read count offset s).0 ≢ err stuck)
  unfolding dev_read
  dev_read_keeps count offset s = (ground arith, λ e. ground arith)

  pub dev_read_into_keeps :
      (count offset : ℕ) (s : Xfs)
      → ((dev_read_into count offset s).1.xal ≡ s.xal)
        × ((dev_read_into count offset s).0 ≢ err stuck)
  unfolding dev_read_into dev_read
  dev_read_into_keeps count offset s = (ground arith, λ e. ground arith)

  -- The groups too are as they were.
  pub dev_read_ags : (count offset : ℕ) (s : Xfs) → (dev_read count offset s).1.ags ≡ s.ags
  unfolding dev_read
  dev_read_ags count offset s = ground arith
