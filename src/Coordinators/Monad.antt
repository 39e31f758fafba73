-- ===== src/Coordinators/Monad.antt =====
-- What an update of a coordinator is: a result or an exception, and the state that it leaves.
use proxmoxve_integration.Prelude.{Option, none, some}
use proxmoxve_integration.Prelude.Text.{Text}
use proxmoxve_integration.Json.{Value, null}
use proxmoxve_integration.Poll.{
  Outcome, data_read, not_permitted, update_failed, config_entry_auth_failed,
}

-- `UpdateFailed` with its message, `ConfigEntryAuthFailed`, or any other exception.
pub data Result (A : Type 0) : Type 0 where
  done : A → Result A
  unavailable : Text → Result A
  login_refused : Result A
  crashed : Result A

abbrev pub Action : Type 0 → Type 0 → Type 0
Action S A = S → Result A × S

module _ {S : Type 0} where
  abbrev pub pure : {A : Type 0} → A → Action S A
  pure a s = (done a, s)

  abbrev pub fail : {A : Type 0} → Text → Action S A
  fail m s = (unavailable m, s)

  abbrev pub crash : {A : Type 0} → Action S A
  crash s = (crashed, s)

  -- An exception goes past what is left to do.
  abbrev pub continue : {A B : Type 0} → Result A → (A → Action S B) → Action S B
  continue (done a) f = f a
  continue (unavailable m) f = λ s. (unavailable m, s)
  continue login_refused f = λ s. (login_refused, s)
  continue crashed f = λ s. (crashed, s)

  infixl 5 ◌>>=◌
  abbrev pub ◌>>=◌ : {A B : Type 0} → Action S A → (A → Action S B) → Action S B
  ◌>>=◌ m f s = continue (m s).0 f (m s).1

  infixl 5 ◌>>◌
  abbrev pub ◌>>◌ : {A B : Type 0} → Action S A → Action S B → Action S B
  m >> k = m >>= λ _. k

  -- What is `None` where Python raises.
  abbrev pub or_crash : {A : Type 0} → Option A → Action S A
  or_crash none = crash
  or_crash (some a) = pure a

  abbrev pub get_state : Action S S
  get_state s = (done s, s)

  abbrev pub put_state : S → Action S (Unit {0})
  put_state t s = (done tt, t)

  -- `try: … except UpdateFailed: …`
  abbrev pub recover : {A : Type 0} → Result A → Action S A → Action S A
  recover (done a) k = λ s. (done a, s)
  recover (unavailable m) k = k
  recover login_refused k = λ s. (login_refused, s)
  recover crashed k = λ s. (crashed, s)

  abbrev pub or_else : {A : Type 0} → Action S A → Action S A → Action S A
  or_else m k s = recover (m s).0 k (m s).1

-- The answer of a poll: nothing, where it was not permitted.
abbrev pub answer_of : Outcome Value → Result Value
answer_of (data_read v) = done v
answer_of not_permitted = done null
answer_of (update_failed m) = unavailable m
answer_of config_entry_auth_failed = login_refused
