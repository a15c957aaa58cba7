-- ===== src/Server/Inversion.antt =====
-- What a task that fulfils has done.
use ascended_core.Base.{◌≡◌, refl, ap, subst, sym}
use ascended_core.Core.Errors.{CoreError, Thrown}
use ascended_core.Core.Result.{Result, ok, err}
use ascended_core.Server.World.{World, Task, ◌>>=◌, checked}

abbrev pub IsOk : {A : Type 0} → Result A Thrown → Type 0
IsOk (ok a) = Unit
IsOk (err e) = ⊥

module _ {W A B : Type 0} where
  -- the rest of a task, behind its first part
  behind_first :
      (r : Result A Thrown) (w1 : World W) (f : A → Task W B) (b : B) (w2 : World W)
      → (elim r [ ok a ↦ f a w1 | err e ↦ (err e, w1) ]) ≡ (ok b, w2)
      → (a : A) × (r ≡ ok a) × (f a w1 ≡ (ok b, w2))
  behind_first (ok a) w1 f b w2 h = (a, refl, h)
  behind_first (err e) w1 f b w2 h =
      absurd (subst IsOk (sym (ap (λ (x : Result B Thrown × World W). x.0) h)) tt)

  pub bind_ok :
      (m : Task W A) (f : A → Task W B) (w : World W) (b : B) (w2 : World W)
      → (m >>= f) w ≡ (ok b, w2)
      → (a : A) × ((m w).0 ≡ ok a) × (f a (m w).1 ≡ (ok b, w2))
  bind_ok m f w b w2 h = behind_first (m w).0 (m w).1 f b w2 h

pub checked_world : {W A : Type 0} (r : Result A CoreError) (w : World W) → (checked r w).1 ≡ w
checked_world (ok a) w = refl
checked_world (err e) w = refl

abbrev answer_or : {A : Type 0} → A → Result A Thrown → A
answer_or d (ok a) = a
answer_or d (err e) = d

pub same_answer : {A : Type 0} (a b : A) → ◌≡◌ {A = Result A Thrown} (ok a) (ok b) → a ≡ b
same_answer a b h = ap (answer_or a) h

pub checked_ok :
    {W A : Type 0} (r : Result A CoreError) (w : World W) (a : A)
    → (checked r w).0 ≡ ok a
    → r ≡ ok a
checked_ok (ok b) w a h = ap ok (same_answer b a h)
checked_ok (err e) w a h = absurd (subst IsOk (sym h) tt)
