-- ===== src/Gles/Accepted/Queries.antt =====
-- The host accepts what the entry points of Gles/Queries.antt send.
use vw_firmware_mac.Base.{ℕ, refl, ◌==◌, if◌then◌else◌}
use vw_firmware_mac.Gles.Accepted.Check.{
  Outcome, returned, served, IsServed, IsServed-if, checks, outcome_of,
}
use vw_firmware_mac.Gles.Queries.{
  QueryCall, query_command, query_operation, finish, flush, get_booleanv, get_error, get_floatv,
  get_integerv, get_string, is_enabled,
}

-- `glGetError` returns the pending error, where there is one.
unfoldable pub query_outcome : ℕ → QueryCall → Outcome
unfolding outcome_of
query_outcome error get_error = if error == 0 then served else returned error
query_outcome error c = outcome_of (query_operation c)

pub query_command-IsServed :
    (e : ℕ) (c : QueryCall) → IsServed (query_operation c) (query_outcome e c) (query_command e c)
unfolding checks outcome_of query_outcome query_command query_operation
query_command-IsServed e finish = (refl, refl)
query_command-IsServed e flush = (refl, refl)
query_command-IsServed e (get_booleanv a0 a1) = (refl, refl)
query_command-IsServed e get_error = IsServed-if (e == 0) 61 _ _ _ _ (refl, refl) refl
query_command-IsServed e (get_floatv a0 a1) = (refl, refl)
query_command-IsServed e (get_integerv a0 a1) = (refl, refl)
query_command-IsServed e (get_string a0) = (refl, refl)
query_command-IsServed e (is_enabled a0) = (refl, refl)
