-- ===== src/Prelude/Outcome.antt =====
-- The outcome of a Rust call: a value, an error of `binary_utils::error::BinaryError`, or a panic.
-- `stuck` is no outcome of Rust: a loop ran out of the fuel that the model gives it.
use Prim.Native.String.{String}
use mathlib.Core.Path.{◌≡◌, refl, subst}
use mathlib.Core.Bool.{Bool, true, false}
use mathlib.Core.Option.{Option, none, some}
use netrex_rak_net.Prelude.Tests.{if◌then◌else◌}

-- `io_error` is what `?` makes of a `std::io::Error`; `recoverable_known` is the variant of that name.
pub data Error : Type 0 where
  io_error : Error
  recoverable_known : String → Error

pub data Result {ℓ} (A : Type ℓ) : Type ℓ where
  ok : A → Result A
  err : Error → Result A
  panic : Result A
  stuck : Result A

infixl 5 ◌>>=◌ ◌>>◌
abbrev pub ◌>>=◌ {ℓ κ} : {A : Type ℓ} {B : Type κ} → Result A → (A → Result B) → Result B
ok a >>= f = f a
err e >>= f = err e
panic >>= f = panic
stuck >>= f = stuck

abbrev pub ◌>>◌ {ℓ κ} : {A : Type ℓ} {B : Type κ} → Result A → Result B → Result B
m >> k = m >>= λ _. k

-- `Option::unwrap`, and `Result::unwrap`.
abbrev pub unwrap {ℓ} : {A : Type ℓ} → Option A → Result A
unwrap none = panic
unwrap (some a) = ok a

abbrev pub expect {ℓ} : {A : Type ℓ} → Result A → Result A
expect (ok a) = ok a
expect (err e) = panic
expect panic = panic
expect stuck = stuck

pub ok_injective {ℓ} : {A : Type ℓ} {x y : A} → ok x ≡ ok y → x ≡ y
ok_injective e = cc

-- Wherever there is a value, it has the property.
pub record Always {ℓ κ} {A : Type ℓ} (P : A → Type κ) (m : Result A) : Type (ℓ ⊔ κ) where
  pub has : (a : A) → m ≡ ok a → P a

module _ {ℓ κ} {A : Type ℓ} {P : A → Type κ} where
  pub Always-ok : {a : A} → P a → Always P (ok a)
  Always-ok h = record { has = λ a e. subst P (ok_injective e) h }

  pub Always-err : {e : Error} → Always P (err e)
  Always-err = record { has = λ a e. absurd (cc) }

  pub Always-panic : Always P panic
  Always-panic = record { has = λ a e. absurd (cc) }

  pub Always-stuck : Always P stuck
  Always-stuck = record { has = λ a e. absurd (cc) }

  pub Always-if :
      {m k : Result A} (t : Bool) → Always P m → Always P k → Always P (if t then m else k)
  Always-if true h g = h
  Always-if false h g = g

  -- Where the branches may rely on the test.
  pub Always-test :
      {m k : Result A} (t : Bool)
      → (t ≡ true → Always P m)
      → (t ≡ false → Always P k)
      → Always P (if t then m else k)
  Always-test true h g = h refl
  Always-test false h g = g refl

  pub Always-weaken {μ} :
      {Q : A → Type μ} {m : Result A} → Always P m → ((a : A) → P a → Q a) → Always Q m
  Always-weaken h g = record { has = λ a e. g a (h.has a e) }

module _ {ℓ κ μ} {A : Type ℓ} {B : Type κ} {Q : B → Type μ} where
  pub Always->>= {ν} :
      {P : A → Type ν} {f : A → Result B} (m : Result A)
      → Always P m
      → ((a : A) → P a → Always Q (f a))
      → Always Q (m >>= f)
  Always->>= (ok a) h g = g a (h.has a refl)
  Always->>= (err e) h g = Always-err
  Always->>= panic h g = Always-panic
  Always->>= stuck h g = Always-stuck

  -- Where the first outcome is only read.
  pub Always-behind :
      {f : A → Result B} (m : Result A) → ((a : A) → Always Q (f a)) → Always Q (m >>= f)
  Always-behind (ok a) g = g a
  Always-behind (err e) g = Always-err
  Always-behind panic g = Always-panic
  Always-behind stuck g = Always-stuck

  -- Where the error of the first is handled too.
  pub Always-handled :
      {f : A → Result B} {g : Error → Result B} (m : Result A)
      → ((a : A) → Always Q (f a))
      → ((e : Error) → Always Q (g e))
      → Always Q (elim m [ ok a ↦ f a | err e ↦ g e | panic ↦ panic | stuck ↦ stuck ])
  Always-handled (ok a) h k = h a
  Always-handled (err e) h k = k e
  Always-handled panic h k = Always-panic
  Always-handled stuck h k = Always-stuck

module _ {ℓ κ μ} {A : Type ℓ} {B : Type κ} {Q : B → Type μ} where
  -- Where what is found is known to be.
  pub Always-unwrap :
      {f : A → Result B} (o : Option A)
      → ((a : A) → o ≡ some a → Always Q (f a))
      → Always Q (unwrap o >>= f)
  Always-unwrap none g = Always-panic
  Always-unwrap (some a) g = g a refl

  pub Always-option :
      {x : Result B} {f : A → Result B} (o : Option A)
      → Always Q x
      → ((a : A) → o ≡ some a → Always Q (f a))
      → Always Q (elim o [ none ↦ x | some a ↦ f a ])
  Always-option none h g = h
  Always-option (some a) h g = g a refl

-- Where a chain gives a value, its first part does.
pub returns {ℓ κ} :
    {A : Type ℓ} {B : Type κ} (m : Result A) (f : A → Result B) (x : B)
    → m >>= f ≡ ok x
    → (a : A) × (m ≡ ok a) × (f a ≡ ok x)
returns (ok a) f x e = (a, refl, e)
returns (err e') f x e = absurd (cc)
returns panic f x e = absurd (cc)
returns stuck f x e = absurd (cc)
