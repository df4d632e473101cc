-- ===== src/Common/Partial.antt =====
-- `let Some(x) = e? else { return Ok(None) };` as the bind `x ← e`: a cut input ends the block.
use mathlib.Core.Path.{◌≡◌, refl}
use mathlib.Core.Option.{Option, none, some}
use storj_uplink.Common.Outcome.{Result, ok, err}

infixl 5 ◌>>=◌
abbrev pub ◌>>=◌ {ℓ κ} :
    {E : Type 0} {A : Type ℓ} {B : Type κ}
    → Result E (Option A)
    → (A → Result E (Option B))
    → Result E (Option B)
ok (some a) >>= f = f a
ok none >>= f = ok none
err e >>= f = err e

pub >>=-eq-some {ℓ κ} :
    {E : Type 0} {A : Type ℓ} {B : Type κ} (m : Result E (Option A)) (f : A → Result E (Option B))
    {b : B}
    → (m >>= f) ≡ ok (some b)
    → (a : A) × (m ≡ ok (some a)) × (f a ≡ ok (some b))
>>=-eq-some (ok (some a)) f h = (a, refl, h)
>>=-eq-some (ok none) f h = cc
>>=-eq-some (err e) f h = cc
