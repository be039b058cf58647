-- ===== src/Plc/Timed.antt =====
-- How long registering an operation, and retiring an identifier, may take.
use manapds.Prelude.{Bool, Str, arith, false, true, ℕ, ◌+◌, ◌/◌, ◌≤◌}
use manapds.Prelude.Result.{Result, err, ok}
use manapds.Syntax.Did
use manapds.Plc.{Error, encode, signature, malformed, unreachable, uncertain, refused}
use manapds.Plc.Client.{
  Net, Client, Held, yes, no, unknown, attempts, share, attempt_to, attempt, asked, holds,
  read_again, sent_again, confirm, answer_to, send, gone_after, retire,
}

-- An exchange is over when its budget is.
pub record IsTimed {S : Type 0} (net : Net S) (clock : S → ℕ) : Type 0 where
  pub post-budget :
      (budget : ℕ) (target body : Str) (s : S)
      → clock (net.post budget target body s).0 ≤ clock s + budget
  pub get-budget :
      (budget : ℕ) (target : Str) (s : S) → clock (net.get budget target s).0 ≤ clock s + budget

module _ {S : Type 0} (net : Net S) (clock : S → ℕ) (client : Client) (did : Did.Did)
    (timed : IsTimed net clock) where
  attempt_to-budget :
      (body : Str) (budget : ℕ) (s : S) (m : Result Str Str)
      → clock (attempt_to net body budget s m).0 ≤ clock s + budget
  unfolding attempt_to
  attempt_to-budget body budget s (err said) = omega arith
  attempt_to-budget body budget s (ok target) = timed.post-budget budget target body s

  attempt-budget :
      (json : Result Str Str) (budget : ℕ) (s : S)
      → clock (attempt net client did json budget s).0 ≤ clock s + budget
  unfolding attempt
  attempt-budget (err said) budget s = omega arith
  attempt-budget (ok body) budget s = attempt_to-budget body budget s _

  asked-budget :
      (budget : ℕ) (s : S) (m : Result Str Str)
      → clock (asked net did budget s m).0 ≤ clock s + budget
  unfolding asked
  asked-budget budget s (err said) = omega arith
  asked-budget budget s (ok target) = timed.get-budget budget target s

  holds-budget : (budget : ℕ) (s : S) → clock (holds net client did budget s).0 ≤ clock s + budget
  unfolding holds
  holds-budget budget s = asked-budget budget s _

  read_again-budget :
      (sent : Bool) (s : S) (answer : Result Error (Unit {0}))
      → clock (read_again net client did sent s answer).0 ≤ clock s + share client
  unfolding read_again
  read_again-budget sent s (ok _) = omega arith
  read_again-budget sent s (err again) = holds-budget (share client) s

  attempt_read-budget :
      (json : Result Str Str) (sent : Bool) (s : S)
      → (let again = attempt net client did json (share client) s in
          clock (read_again net client did sent again.0 again.1).0
          ≤ clock s + share client + share client)
  attempt_read-budget json sent s = omega (
    arith,
    attempt-budget json (share client) s,
    read_again-budget sent (attempt net client did json (share client) s).0
        (attempt net client did json (share client) s).1,
  )

  sent_again-budget :
      (json : Result Str Str) (sent : Bool) (s : S) (what : Held)
      → clock (sent_again net client did json sent s what).0 ≤ clock s + share client + share client
  unfolding sent_again
  sent_again-budget json sent s yes = omega arith
  sent_again-budget json sent s no = attempt_read-budget json sent s
  sent_again-budget json sent s unknown = attempt_read-budget json sent s

  confirm-budget :
      (json : Result Str Str) (sent : Bool) (s : S)
      → clock (confirm net client did json sent s).0
        ≤ clock s + share client + share client + share client
  unfolding confirm
  confirm-budget json sent s = omega (
    arith,
    holds-budget (share client) s,
    sent_again-budget json sent (holds net client did (share client) s).0
        (holds net client did (share client) s).1,
  )

  answer_to-budget :
      (json : Result Str Str) (s : S) (answer : Result Error (Unit {0}))
      → clock (answer_to net client did json s answer).0
        ≤ clock s + share client + share client + share client
  unfolding answer_to
  answer_to-budget json s (ok _) = omega arith
  answer_to-budget json s (err (unreachable _)) = confirm-budget json false s
  answer_to-budget json s (err (uncertain _)) = confirm-budget json true s
  answer_to-budget json s (err (encode _)) = omega arith
  answer_to-budget json s (err signature) = omega arith
  answer_to-budget json s (err (malformed _)) = omega arith
  answer_to-budget json s (err (refused _ _)) = omega arith

  gone_after-budget :
      (s : S) (answer : Result Error (Unit {0}))
      → clock (gone_after net client did s answer).0 ≤ clock s + share client
  unfolding gone_after
  gone_after-budget s (err _) = omega arith
  gone_after-budget s (ok _) = holds-budget (share client) s

  -- Where an exchange is over when its budget is, sending an operation, with every attempt and every read
  -- back, takes no longer than the client is set to wait, and retiring an identifier no longer than a
  -- third of that.
  pub send-retire-budget :
      (json : Result Str Str) (s : S)
      → (clock (send net client did json s).0 ≤ clock s + client.answer)
        × (clock (retire net client did json s).0 ≤ clock s + client.answer / 3)
  unfolding send retire share
  send-retire-budget json s = (
    omega (
      arith,
      attempt-budget json (client.answer / attempts) s,
      answer_to-budget json (attempt net client did json (client.answer / attempts) s).0
          (attempt net client did json (client.answer / attempts) s).1,
    ),
    omega (
      arith,
      attempt-budget json (share client) s,
      gone_after-budget (attempt net client did json (share client) s).0
          (attempt net client did json (share client) s).1,
    ),
  )
