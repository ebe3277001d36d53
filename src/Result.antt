-- ===== src/Result.antt =====
-- The C convention of the library: an `int` that is 0 or a negated errno, with what the call gives
-- through its output pointers. A function that changes state is an `Exec`: it returns the state
-- also when it fails, since the C code does not roll back.
use xallib.Prelude.{ℕ, ◌≡◌, refl, ◌⊎◌, inl, inr}

-- The errno values of the library's own returns; `os` is an `errno` that a system call left.
-- Three are no C values: with `assertion` the process ends in an assert(), with `overrun` the code
-- writes behind the end of an array or overflows an `int`, and with `stuck` a recursion of the model ran out of fuel.
pub data Error : Type 0 where
  einval enomem eoverflow eio enosys estale eagain enoent enotdir assertion overrun stuck : Error
  os : ℕ → Error

pub data Result {ℓ} (A : Type ℓ) : Type ℓ where
  ok : A → Result A
  err : Error → Result A

abbrev pub Exec : Type 0 → Type 0 → Type 0
Exec S A = S → Result A × S

abbrev pub pure : {S A : Type 0} → A → Exec S A
pure a s = (ok a, s)

abbrev pub raise : {S A : Type 0} → Error → Exec S A
raise e s = (err e, s)

-- What follows the call `m` in the source, after its `if (err) return err`.
abbrev pub bind_result : {S A B : Type 0} → Result A × S → (A → Exec S B) → Result B × S
bind_result (ok a, s) f = f a s
bind_result (err e, s) f = (err e, s)

infixl 5 ◌>>=◌ ◌>>◌
abbrev pub ◌>>=◌ : {S A B : Type 0} → Exec S A → (A → Exec S B) → Exec S B
◌>>=◌ m f s = bind_result (m s) f

abbrev pub ◌>>◌ : {S B : Type 0} → Exec S (Unit {0}) → Exec S B → Exec S B
m >> k = m >>= λ _. k

pub Result-cases {ℓ} :
    {A : Type ℓ} (r : Result A) → ((a : A) × (r ≡ ok a)) ⊎ ((e : Error) × (r ≡ err e))
Result-cases (ok a) = inl (a, refl)
Result-cases (err e) = inr (e, refl)

-- A sequence that succeeds has gone through its first call.
pub bind_ok :
    {S A B : Type 0} (m : Exec S A) (k : A → Exec S B) (s : S) {b : B}
    → ((m >>= k) s).0 ≡ ok b
    → (a : A) × ((m s).0 ≡ ok a) × ((m >>= k) s ≡ k a (m s).1)
bind_ok m k s h = elim (Result-cases (m s).0) [
  | inl (a, e) ↦ (a, e, rw e refl)
  | inr (c, e) ↦ cc (rw e at h)
]
