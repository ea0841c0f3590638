-- ===== src/Base/Go.antt =====
-- Go's results: a value, an error, or a panic. An error has a message and the sentinel error that
-- `errors.Is` finds at the end of its chain. Messages are kept as far as texts go into them; the
-- numbers and structures that some of them print are left out.
use tx_xrpl_token_migrator.Base.{
  ◌≡◌, ◌≢◌, refl, ap, sym, ◌∙◌, ◌⊎◌, inl, inr, Option, none, some, ◌++◌,
}
use tx_xrpl_token_migrator.Base.Str.{Str, codes}

pub data Cause : Type 0 where
  plain canceled deadline_exceeded config_changed : Cause

pub record Error : Type 0 where
  pub message : Str
  pub cause : Cause

pub data Go {ℓ} (A : Type ℓ) : Type ℓ where
  ok : A → Go A
  err : Error → Go A
  panics : Go A

infixl 5 ◌>>=◌
abbrev pub ◌>>=◌ {ℓ κ} : {A : Type ℓ} {B : Type κ} → Go A → (A → Go B) → Go B
ok a >>= f = f a
err e >>= f = err e
panics >>= f = panics

-- `errors.New`
abbrev pub new_error : Str → Error
new_error m = record { message = m; cause = Cause.plain }

-- `errors.Wrap(err, message)`: the message is put in front and the chain is kept.
abbrev pub wrap : Str → Error → Error
wrap m e = record { message = m ++ (codes ": " ++ e.message); cause = e.cause }

-- A value that Go code takes for granted: a nil pointer or a refused value panics.
abbrev pub or_panic {ℓ} : {A : Type ℓ} → Option A → Go A
or_panic none = panics
or_panic (some a) = ok a

-- A chain that ends in a value has one in the middle.
pub >>=-eq-ok {ℓ κ} :
    {A : Type ℓ} {B : Type κ} (first : Go A) (next : A → Go B) {value : B}
    → (first >>= next) ≡ ok value
    → (middle : A) × (first ≡ ok middle) × (next middle ≡ ok value)
>>=-eq-ok panics next e = cc
>>=-eq-ok (err problem) next e = cc
>>=-eq-ok (ok middle) next e = (middle, refl, e)

-- A chain goes on with the value of its first part.
pub >>=-ok {ℓ κ} :
    {A : Type ℓ} {B : Type κ} {first : Go A} (next : A → Go B) {middle : A} {value : B}
    → first ≡ ok middle
    → (first >>= next) ≡ ok value
    → next middle ≡ ok value
>>=-ok next e h = sym (ap (λ m. m >>= next) e) ∙ h

pub or_panic-eq-ok {ℓ} : {A : Type ℓ} (o : Option A) {a : A} → or_panic o ≡ ok a → o ≡ some a
or_panic-eq-ok none h = cc
or_panic-eq-ok (some b) h = cc

pub ok_injective {ℓ} : {A : Type ℓ} {a b : A} → ok a ≡ ok b → a ≡ b
ok_injective h = cc

-- A failure is not a success.
pub err_not_ok {ℓ} : {A : Type ℓ} {a : A} (e : Error) → err e ≢ ok a
err_not_ok e h = cc

pub panics_not_ok {ℓ} : {A : Type ℓ} {a : A} → panics ≢ ok a
panics_not_ok h = cc

pub Go-cases {ℓ} :
    {A : Type ℓ} (m : Go A) → ((a : A) × (m ≡ ok a)) ⊎ (((e : Error) × (m ≡ err e)) ⊎ (m ≡ panics))
Go-cases (ok a) = inl (a, refl)
Go-cases (err e) = inr (inl (e, refl))
Go-cases panics = inr (inr refl)
