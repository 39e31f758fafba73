-- ===== src/Coordinators/Keeps.antt =====
-- What an action keeps: a predicate on the state, whatever it returns or raises.
use proxmoxve_integration.Prelude.{Option, none, some}
use proxmoxve_integration.Prelude.Text.{Text}
use proxmoxve_integration.Coordinators.Monad.{
  Result, done, unavailable, login_refused, crashed, Action, pure, fail, or_crash, continue, ◌>>=◌,
  ◌>>◌,
}

pub record Keeps {S A : Type 0} (P : S → Type 0) (m : Action S A) : Type 0 where
  pub keep : (s : S) → P s → P (m s).1

module _ {S : Type 0} (P : S → Type 0) where
  Keeps-continue :
      {A B : Type 0} (r : Result A) (f : A → Action S B)
      → ((a : A) → Keeps P (f a))
      → Keeps P (continue r f)
  Keeps-continue (done a) f rest = rest a
  Keeps-continue (unavailable m) f rest = record { keep = λ s i. i }
  Keeps-continue login_refused f rest = record { keep = λ s i. i }
  Keeps-continue crashed f rest = record { keep = λ s i. i }

  pub Keeps-bind :
      {A B : Type 0} (m : Action S A) (f : A → Action S B)
      → Keeps P m
      → ((a : A) → Keeps P (f a))
      → Keeps P (m >>= f)
  Keeps-bind m f first rest = record {
    keep = λ s i. (Keeps-continue (m s).0 f rest).keep (m s).1 (first.keep s i);
  }

  pub Keeps-then :
      {A B : Type 0} (m : Action S A) (k : Action S B) → Keeps P m → Keeps P k → Keeps P (m >> k)
  Keeps-then m k first rest = Keeps-bind m (λ a. k) first (λ a. rest)

  pub Keeps-pure : {A : Type 0} (a : A) → Keeps P (pure a)
  Keeps-pure a = record { keep = λ s i. i }

  pub Keeps-fail : {A : Type 0} (m : Text) → Keeps P (fail {A = A} m)
  Keeps-fail m = record { keep = λ s i. i }

  pub Keeps-or_crash : {A : Type 0} (o : Option A) → Keeps P (or_crash o)
  Keeps-or_crash none = record { keep = λ s i. i }
  Keeps-or_crash (some a) = record { keep = λ s i. i }
