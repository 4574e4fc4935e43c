-- ===== src/Base/Errors.antt =====
-- `Result` of Rust, with one value more for loops on fuel.
use mathlib.Core.Path.{◌≡◌, refl}
use mathlib.Core.Logic.{◌≢◌}
use mathlib.Core.Option.{Option, none, some}

-- `stuck` is no Rust value: it stands for a loop whose fuel ran out.
pub data Result {ℓ κ} (E : Type κ) (A : Type ℓ) : Type (ℓ ⊔ κ) where
  ok : A → Result E A
  err : E → Result E A
  stuck : Result E A

infixl 5 ◌>>=◌
unfoldable pub ◌>>=◌ {ℓ κ ν} :
    {E : Type ν} {A : Type ℓ} {B : Type κ} → Result E A → (A → Result E B) → Result E B
ok a >>= f = f a
err e >>= f = err e
stuck >>= f = stuck

-- `ok_or`
unfoldable pub ok_or {ℓ κ} : {E : Type κ} {A : Type ℓ} → Option A → E → Result E A
ok_or (some a) e = ok a
ok_or none e = err e

-- `ok()`
unfoldable pub to_option {ℓ κ} : {E : Type κ} {A : Type ℓ} → Result E A → Option A
to_option (ok a) = some a
to_option (err e) = none
to_option stuck = none

-- Inversion of a successful bind.
pub >>=-eq-ok {ℓ κ ν} :
    {E : Type ν} {A : Type ℓ} {B : Type κ} (m : Result E A) (f : A → Result E B) {b : B}
    → (m >>= f) ≡ ok b
    → (a : A) × (m ≡ ok a) × (f a ≡ ok b)
unfolding ◌>>=◌
>>=-eq-ok (ok a) f h = (a, refl, h)
>>=-eq-ok (err e) f h = cc
>>=-eq-ok stuck f h = cc

-- A bind is stuck only if one of its parts is.
pub >>=-ne-stuck {ℓ κ ν} :
    {E : Type ν} {A : Type ℓ} {B : Type κ} (m : Result E A) (f : A → Result E B)
    → m ≢ stuck
    → ((a : A) → m ≡ ok a → f a ≢ stuck)
    → (m >>= f) ≢ stuck
unfolding ◌>>=◌
>>=-ne-stuck (ok a) f h k = k a refl
>>=-ne-stuck (err e) f h k = λ p. cc
>>=-ne-stuck stuck f h k = absurd (h refl)

pub ok_or-ne-stuck {ℓ κ} : {E : Type κ} {A : Type ℓ} (o : Option A) (e : E) → ok_or o e ≢ stuck
unfolding ok_or
ok_or-ne-stuck (some a) e = λ p. cc
ok_or-ne-stuck none e = λ p. cc

pub ok_or-eq-ok {ℓ κ} :
    {E : Type κ} {A : Type ℓ} (o : Option A) (e : E) {a : A} → ok_or o e ≡ ok a → o ≡ some a
unfolding ok_or
ok_or-eq-ok (some a) e h = cc
ok_or-eq-ok none e h = cc

pub ok-ne-stuck {ℓ κ} : {E : Type κ} {A : Type ℓ} {a : A} → ◌≢◌ {A = Result E A} (ok a) stuck
ok-ne-stuck = λ p. cc

pub ok_fst {ℓ κ ν} :
    {E : Type ν} {A : Type ℓ} {B : Type κ} {a a' : A} {b b' : B}
    → ◌≡◌ {A = Result E (A × B)} (ok (a, b)) (ok (a', b'))
    → a ≡ a'
ok_fst h = cc

pub ok_snd {ℓ κ ν} :
    {E : Type ν} {A : Type ℓ} {B : Type κ} {a a' : A} {b b' : B}
    → ◌≡◌ {A = Result E (A × B)} (ok (a, b)) (ok (a', b'))
    → b ≡ b'
ok_snd h = cc

pub ok_injective {ℓ κ} :
    {E : Type κ} {A : Type ℓ} {a a' : A} → ◌≡◌ {A = Result E A} (ok a) (ok a') → a ≡ a'
ok_injective h = cc

-- The same inversion, with what follows as a function: the parts are its variables.
pub on_ok {ℓ κ ν μ} :
    {E : Type ν} {A : Type ℓ} {B : Type κ} {C : Type μ} (m : Result E A) (f : A → Result E B)
    {b : B}
    → (m >>= f) ≡ ok b
    → ((a : A) → m ≡ ok a → f a ≡ ok b → C)
    → C
on_ok m f h k = let (a, p, q) = >>=-eq-ok m f h in k a p q

pub >>=_cong {ℓ κ ν} :
    {E : Type ν} {A : Type ℓ} {B : Type κ} (m : Result E A) (f g : A → Result E B)
    → ((a : A) → f a ≡ g a)
    → (m >>= f) ≡ (m >>= g)
unfolding ◌>>=◌
>>=_cong (ok a) f g h = h a
>>=_cong (err e) f g h = refl
>>=_cong stuck f g h = refl

pub >>=_assoc {ℓ κ ν μ} :
    {E : Type ν} {A : Type ℓ} {B : Type κ} {C : Type μ} (m : Result E A) (f : A → Result E B)
    (g : B → Result E C)
    → (m >>= f >>= g) ≡ (m >>= (λ a. f a >>= g))
unfolding ◌>>=◌
>>=_assoc (ok a) f g = refl
>>=_assoc (err e) f g = refl
>>=_assoc stuck f g = refl
