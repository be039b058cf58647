-- ===== src/Plc/Client.antt =====
-- src/plc.rs: the client of the directory. The directory and the network are a state that an exchange
-- changes; an exchange is given its budget, and `no_answer` is one that ran out of it.
use manapds.Prelude.{
  Bool, Option, Str, [], false, if◌then◌else◌, leb, not, some, none, true, ℕ, ◌&&◌, ◌*◌, ◌++◌, ◌/◌,
  ◌^◌, ◌==◌, ◌∷◌,
}
use manapds.Prelude.Bytes.{codes, str_eq}
use manapds.Prelude.Decimal.{decimal}
use manapds.Prelude.Trim.{trim_end_matches}
use manapds.Prelude.Result.{Result, err, ok}
use manapds.Syntax.Did
use manapds.Plc.{Error, encode, unreachable, uncertain, refused, shown}

-- How an exchange ends: in no time left, with a connection that was never made or that broke, or with
-- a status and a body, if the body could be read.
pub data Reply : Type 0 where
  no_answer : Reply
  no_connection : Str → Reply
  broken : Str → Reply
  answered : ℕ → Option Str → Reply

pub data Held : Type 0 where
  yes : Held
  no : Held
  unknown : Held

-- The network, and the readers of what comes over it.
pub record Net (S : Type 0) : Type 0 where
  pub request_to : Str → Result Str Str
  pub post : ℕ → Str → Str → S → S × Reply
  pub get : ℕ → Str → S → S × Reply
  pub lossy : Str → Str
  pub document_id : Str → Option Str

pub record Client : Type 0 where
  pub url : Str
  pub answer : ℕ

abbrev pub timeout : ℕ
timeout = 30 * 10 ^ 9

-- `Client::new` and `Client::waiting`. Durations are nanoseconds.
unfoldable pub new : Str → Client
new url = record { url = trim_end_matches b'/' url; answer = timeout }

unfoldable pub waiting : ℕ → Client → Client
waiting answer client = record client { answer = answer }

abbrev pub attempts : ℕ
attempts = 2

abbrev pub steps : ℕ
steps = 3

abbrev pub is_success : ℕ → Bool
is_success status = leb 200 status && leb status 299

abbrev pub is_server_error : ℕ → Bool
is_server_error status = leb 500 status && leb status 599

abbrev read_back : (Str → Str) → Option Str → Str
read_back lossy none = []
read_back lossy (some body) = lossy body

-- `Client::share`
unfoldable pub share : Client → ℕ
share client = client.answer / attempts / steps

unfoldable pub address : Client → Did.Did → Str
address client did = client.url ++ (b'/' ∷ did.text)

abbrev pub is_uncertain : Error → Bool
is_uncertain (uncertain said) = true
is_uncertain _ = false

-- The last match of `confirm`.
unfoldable pub settled : Bool → Error → Held → Result Error (Unit {0})
settled sent again yes = ok tt
settled sent again no = err again
settled sent again unknown =
    if not sent && not (is_uncertain again)
    then err again
    else err
        (uncertain (codes "asked twice what it holds and answered neither time: " ++ shown again))

abbrev is_no : Held → Bool
is_no no = true
is_no _ = false

module _ {S : Type 0} (net : Net S) where
  -- `Client::within` and `Client::exchange`, from how the exchange ended.
  unfoldable pub exchanged : Reply → Result Error (Unit {0})
  exchanged no_answer = err (uncertain (codes "no answer in time"))
  exchanged (no_connection said) = err (unreachable said)
  exchanged (broken said) = err (uncertain said)
  exchanged (answered status body) =
      let said = read_back net.lossy body in
      if is_success status
      then ok tt
      else if is_server_error status
      then err (uncertain (decimal status ++ (b' ' ∷ said)))
      else err (refused status said)

  -- `Client::attempt`, of an operation that serde wrote as `json`.
  unfoldable pub attempt_to : Str → ℕ → S → Result Str Str → S × Result Error (Unit {0})
  unfolding exchanged
  attempt_to body budget s (err said) = (s, err (unreachable said))
  attempt_to body budget s (ok target) =
      let (s', reply) = net.post budget target body s in (s', exchanged reply)

  unfoldable pub attempt : Client → Did.Did → Result Str Str → ℕ → S → S × Result Error (Unit {0})
  unfolding attempt_to address
  attempt client did (err said) budget s = (s, err (encode said))
  attempt client did (ok body) budget s =
      attempt_to body budget s (net.request_to (address client did))

  -- Whether the document names the identifier back.
  unfoldable pub named : Did.Did → Option Str → Held
  named did none = unknown
  named did (some body) = elim (net.document_id body) [
    | none ↦ unknown
    | some id ↦ if str_eq id did.text then yes else unknown
  ]

  -- `Client::document`, from how the exchange ended.
  unfoldable pub document : Did.Did → Reply → Held
  unfolding named
  document did no_answer = unknown
  document did (no_connection said) = unknown
  document did (broken said) = unknown
  document did (answered status body) =
      if status == 404 then no else if is_success status then named did body else unknown

  unfoldable pub asked : Did.Did → ℕ → S → Result Str Str → S × Held
  unfolding document
  asked did budget s (err said) = (s, unknown)
  asked did budget s (ok target) =
      let (s', reply) = net.get budget target s in (s', document did reply)

  unfoldable pub holds : Client → Did.Did → ℕ → S → S × Held
  unfolding asked address
  holds client did budget s = asked did budget s (net.request_to (address client did))

  unfoldable pub read_again :
      Client → Did.Did → Bool → S → Result Error (Unit {0}) → S × Result Error (Unit {0})
  unfolding holds settled share
  read_again client did sent s (ok _) = (s, ok tt)
  read_again client did sent s (err again) =
      let (s', held) = holds client did (share client) s in (s', settled sent again held)

  unfoldable pub sent_again :
      Client → Did.Did → Result Str Str → Bool → S → Held → S × Result Error (Unit {0})
  unfolding attempt read_again share
  sent_again client did json sent s yes = (s, ok tt)
  sent_again client did json sent s _ =
      let (s', again) = attempt client did json (share client) s in
      read_again client did sent s' again

  unfoldable pub confirm :
      Client → Did.Did → Result Str Str → Bool → S → S × Result Error (Unit {0})
  unfolding holds sent_again share
  confirm client did json sent s =
      let (s', held) = holds client did (share client) s in sent_again client did json sent s' held

  unfoldable pub answer_to :
      Client → Did.Did → Result Str Str → S → Result Error (Unit {0}) → S × Result Error (Unit {0})
  unfolding confirm
  answer_to client did json s (err (unreachable _)) = confirm client did json false s
  answer_to client did json s (err (uncertain _)) = confirm client did json true s
  answer_to client did json s answer = (s, answer)

  unfoldable pub send : Client → Did.Did → Result Str Str → S → S × Result Error (Unit {0})
  unfolding attempt answer_to
  send client did json s =
      let (s', answer) = attempt client did json (client.answer / attempts) s in
      answer_to client did json s' answer

  unfoldable pub gone_after : Client → Did.Did → S → Result Error (Unit {0}) → S × Bool
  unfolding holds share
  gone_after client did s (err _) = (s, false)
  gone_after client did s (ok _) =
      let (s', held) = holds client did (share client) s in (s', is_no held)

  unfoldable pub retire : Client → Did.Did → Result Str Str → S → S × Bool
  unfolding attempt gone_after share
  retire client did json s =
      let (s', answer) = attempt client did json (share client) s in gone_after client did s' answer
