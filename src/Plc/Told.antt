-- ===== src/Plc/Told.antt =====
-- That the client does not misreport what became of an operation.
use mathlib.Core.Path.{subst}
use manapds.Prelude.{
  Bool, Bool-cases, Str, arith, false, inl, inr, not, sym, true, ◌&&◌, ◌∙◌, ◌≡◌, ◌/◌,
}
use manapds.Prelude.Result.{Result, err, ok}
use manapds.Syntax.Did
use manapds.Plc.{Error, encode, signature, malformed, unreachable, uncertain, refused}
use manapds.Plc.Client.{
  Net, Client, Held, yes, no, unknown, is_uncertain, attempts, share, attempt, holds, settled,
  read_again, sent_again, confirm, answer_to, send,
}
use manapds.Plc.Left.{IsHonest, IsLeft, IsRead, unchanged, attempt-IsLeft, holds-IsRead}

-- What an answer tells of a directory: that it holds the operation, that it does not, or nothing.
abbrev pub IsTold : Bool → Result Error (Unit {0}) → Type 0
IsTold held (ok _) = held ≡ true
IsTold held (err (uncertain _)) = Unit
IsTold held (err (encode _)) = held ≡ false
IsTold held (err signature) = held ≡ false
IsTold held (err (malformed _)) = held ≡ false
IsTold held (err (unreachable _)) = held ≡ false
IsTold held (err (refused _ _)) = held ≡ false

IsTold-absent : (held : Bool) (fault : Error) → held ≡ false → IsTold held (err fault)
IsTold-absent held (encode _) absent = absent
IsTold-absent held signature absent = absent
IsTold-absent held (malformed _) absent = absent
IsTold-absent held (unreachable _) absent = absent
IsTold-absent held (uncertain _) absent = tt
IsTold-absent held (refused _ _) absent = absent

IsLeft-IsTold :
    (after : Bool) (answer : Result Error (Unit {0}))
    → IsLeft false after answer
    → IsTold after answer
IsLeft-IsTold after (ok _) left = left
IsLeft-IsTold after (err (encode _)) left = left
IsLeft-IsTold after (err signature) left = left
IsLeft-IsTold after (err (malformed _)) left = left
IsLeft-IsTold after (err (unreachable _)) left = left
IsLeft-IsTold after (err (uncertain _)) left = tt
IsLeft-IsTold after (err (refused _ _)) left = left

module _ {S : Type 0} (net : Net S) (held : S → Bool) (client : Client) (did : Did.Did) where
  module _ (honest : IsHonest net held client did) where
    settled-IsTold :
        (now sent : Bool) (again : Error) (what : Held)
        → IsRead now what
        → (sent ≡ false → is_uncertain again ≡ false → now ≡ false)
        → IsTold now (settled sent again what)
    unfolding settled
    settled-IsTold now sent again yes read unsent = read
    settled-IsTold now sent again no read unsent = IsTold-absent now again read
    settled-IsTold now sent again unknown read unsent =
        elim (Bool-cases (not sent && not (is_uncertain again))) [
          | inl certain ↦
              rw certain (IsTold-absent now again (unsent (ground arith) (ground arith)))
          | inr doubt ↦ rw doubt tt
        ]

    read_again-IsTold :
        (sent before : Bool) (s : S) (answer : Result Error (Unit {0}))
        → IsLeft before (held s) answer
        → (sent ≡ false → before ≡ false)
        → IsTold
            (held (read_again net client did sent s answer).0)
            (read_again net client did sent s answer).1
    unfolding read_again
    read_again-IsTold sent before s (ok _) left unsent = left
    read_again-IsTold sent before s (err again) left unsent =
        let (kept, read) = holds-IsRead net held client did honest (share client) s in
        let what = (holds net client did (share client) s).1 in
        settled-IsTold (held (holds net client did (share client) s).0) sent again what
          (subst (λ v. IsRead v what) (sym kept) read)
          (λ first certain. kept ∙ unchanged before (held s) again left certain ∙ unsent first)

    sent_again-IsTold :
        (json : Result Str Str) (sent : Bool) (s : S) (what : Held)
        → IsRead (held s) what
        → (sent ≡ false → held s ≡ false)
        → IsTold
            (held (sent_again net client did json sent s what).0)
            (sent_again net client did json sent s what).1
    unfolding sent_again
    sent_again-IsTold json sent s yes read unsent = read
    sent_again-IsTold json sent s no read unsent =
        read_again-IsTold sent (held s) _ _
          (attempt-IsLeft net held client did honest json (share client) s) unsent
    sent_again-IsTold json sent s unknown read unsent =
        read_again-IsTold sent (held s) _ _
          (attempt-IsLeft net held client did honest json (share client) s) unsent

    confirm-IsTold :
        (json : Result Str Str) (sent : Bool) (s : S)
        → (sent ≡ false → held s ≡ false)
        → IsTold
            (held (confirm net client did json sent s).0)
            (confirm net client did json sent s).1
    unfolding confirm
    confirm-IsTold json sent s unsent =
        let (kept, read) = holds-IsRead net held client did honest (share client) s in
        let what = (holds net client did (share client) s).1 in
        sent_again-IsTold json sent _ what (subst (λ v. IsRead v what) (sym kept) read)
          (λ first. kept ∙ unsent first)

    answer_to-IsTold :
        (json : Result Str Str) (s : S) (answer : Result Error (Unit {0}))
        → IsLeft false (held s) answer
        → IsTold
            (held (answer_to net client did json s answer).0)
            (answer_to net client did json s answer).1
    unfolding answer_to
    answer_to-IsTold json s (ok _) left = left
    answer_to-IsTold json s (err (unreachable _)) left =
        confirm-IsTold json false s (λ unsent. left)
    answer_to-IsTold json s (err (uncertain _)) left =
        confirm-IsTold json true s (λ unsent. absurd (cc unsent))
    answer_to-IsTold json s (err (encode _)) left = left
    answer_to-IsTold json s (err signature) left = left
    answer_to-IsTold json s (err (malformed _)) left = left
    answer_to-IsTold json s (err (refused _ _)) left = left

    -- Where the directory holds nothing under an identifier, takes what it answers with a success, is left
    -- as it was by what it refuses and by a connection never made, and says truly what it holds: what
    -- `send` returns is true of the directory as it is then left, whatever the network loses on the way.
    -- After a success it holds the operation, and after any error but `Uncertain` it holds nothing.
    pub send-IsTold :
        (json : Result Str Str) (s : S)
        → held s ≡ false
        → IsTold (held (send net client did json s).0) (send net client did json s).1
    unfolding send
    send-IsTold json s absent =
        let first = attempt net client did json (client.answer / attempts) s in
        answer_to-IsTold json first.0 first.1 (
          subst (λ v. IsLeft v (held first.0) first.1) absent
            (attempt-IsLeft net held client did honest json (client.answer / attempts) s))
