-- ===== src/Kweb/Client/Answers.antt =====
-- What a call of the client returns for each answer of the network.
use dcm_kcli_provider.Prelude.{
  ℕ, String, ◌≡◌, refl, ◌∙◌, ap, arith, Option, none, some, ◌<>◌, ◌∷◌, [],
}
use dcm_kcli_provider.Prelude.Result.{Result, ok, err}
use dcm_kcli_provider.Kweb.Api.{KwebError, unreachable, other_error, Params, str}
use dcm_kcli_provider.Kweb.Parse.{parse_response}
use dcm_kcli_provider.Kweb.Client.{
  Network, Codec, Client, with_params, exchange, checked, do_post, post, http_client,
}

-- The error of a call that the network answers in this way: not at all, with a body that cannot be
-- read, or with a status and a body.
abbrev pub answered : Codec → Option (ℕ × Result String String) → Result KwebError (Unit {0})
answered J none = err unreachable
answered J (some (status, err m)) = err (other_error m)
answered J (some (status, ok payload)) = parse_response J.structured status payload

abbrev read_of : Option (ℕ × Result String String) → Result KwebError (ℕ × String)
read_of none = err unreachable
read_of (some (status, err m)) = err (other_error m)
read_of (some (status, ok payload)) = ok (status, payload)

module _ {N : Type 0} (net : Network N) (J : Codec) (base_url : String) where
  exchange-read :
      (method path : String) (body : Option String) (n limited after : N)
      (answer : Option (ℕ × Result String String))
      → net.request (base_url <> path) ≡ none
      → net.wait n ≡ (none, limited)
      → net.exchange method (base_url <> path) body limited ≡ (answer, after)
      → (exchange net J base_url method path body n).0 ≡ read_of answer
  unfolding exchange
  exchange-read method path body n limited after none q w e = ground arith
  exchange-read method path body n limited after (some (status, err m)) q w e = ground arith
  exchange-read method path body n limited after (some (status, ok payload)) q w e = ground arith

  checked-read :
      (answer : Option (ℕ × Result String String))
      → checked net J base_url (read_of answer) ≡ answered J answer
  checked-read none = refl
  checked-read (some (status, err m)) = refl
  checked-read (some (status, ok payload)) = refl

  -- The request for a VM reaches kweb with the client's state after it `after`, and `answer` comes.
  pub record Exchanged (name profile : String) (params : Params) (c : Client N)
      (answer : Option (ℕ × Result String String)) (after : N) : Type 0 where
    pub text : String
    pub limited : N
    pub encoded :
        J.marshal (with_params params (("name", str name) ∷ ("profile", str profile) ∷ []))
        ≡ ok text
    pub requested : net.request (base_url <> "/vms") ≡ none
    pub waited : net.wait c.net ≡ (none, limited)
    pub exchanged : net.exchange "POST" (base_url <> "/vms") (some text) limited ≡ (answer, after)

  pub create_vm-answered :
      (now : ℕ) (name profile : String) (params : Params) (c : Client N)
      (answer : Option (ℕ × Result String String)) (after : N)
      → Exchanged name profile params c answer after
      → ((http_client net J base_url now).create_vm name profile params c).0 ≡ answered J answer
  unfolding http_client post do_post exchange
  create_vm-answered now name profile params c answer after x =
      let read =
        exchange-read "POST" "/vms" (some x.text) c.net x.limited after answer x.requested x.waited
          x.exchanged in
      rw (x.encoded, post, do_post) (ap (checked net J base_url) read ∙ checked-read answer)
