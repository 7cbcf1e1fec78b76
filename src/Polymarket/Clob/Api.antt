-- ===== src/Polymarket/Clob/Api.antt =====
-- pkg/polymarket/clob.go: the requests of `ClobClient`. HTTP, JSON, Base64 and the HMAC are
-- arguments; requests are numbered, so that the venue may answer each differently. An error is its
-- text.
use go_exchange_connector.Prelude.{
  ℕ, suc, Text, codes, is_empty, List, [], ◌∷◌, ◌++◌, Option, none, some, if◌then◌else◌, leb, ltb,
  length, ◌≡◌, ◌⊎◌, inl, inr, refl,
}
use go_exchange_connector.Prelude.Trim.{trim_space}
use go_exchange_connector.Prelude.Decimal.{decimal}
use go_exchange_connector.Polymarket.Clob.{SendOrder, SendOrderResponse, ClobClient}

-- `(value, error)` where exactly one of them counts.
pub data Outcome (A : Type 0) : Type 0 where
  ok : A → Outcome A
  err : Text → Outcome A

-- `if err != nil { return nil, err }` between two calls.
infixl 5 ◌>>=◌
abbrev pub ◌>>=◌ : {A B : Type 0} → Outcome A → (A → Outcome B) → Outcome B
err reason >>= next = err reason
ok value >>= next = next value

-- `fmt.Errorf(prefix + ": %w", err)`
abbrev pub wrap_error : {A : Type 0} → Text → Outcome A → Outcome A
wrap_error prefix (ok a) = ok a
wrap_error prefix (err e) = err (prefix ++ e)

-- To split on an outcome and keep the equation.
pub Outcome-cases :
    {A : Type 0} (r : Outcome A) → ((a : A) × (r ≡ ok a)) ⊎ ((m : Text) × (r ≡ err m))
Outcome-cases (ok a) = inl (a, refl)
Outcome-cases (err m) = inr (m, refl)

-- A second call is made, and succeeds, only on the value of a first that succeeded.
pub >>=-eq-ok :
    {A B : Type 0} (first : Outcome A) (next : A → Outcome B) {out : B}
    → (first >>= next) ≡ ok out
    → (value : A) × (first ≡ ok value) × (next value ≡ ok out)
>>=-eq-ok (err reason) next fails = cc
>>=-eq-ok (ok value) next shown = (value, refl, shown)

pub wrap_error-eq-ok :
    {A : Type 0} (prefix : Text) (m : Outcome A) {a : A} → wrap_error prefix m ≡ ok a → m ≡ ok a
wrap_error-eq-ok prefix (ok a) h = h
wrap_error-eq-ok prefix (err e) h = cc

pub record CancelOrdersResponse : Type 0 where
  pub canceled : List Text
  pub not_canceled : List (Text × Text)

pub record Request : Type 0 where
  pub method : Text
  pub url : Text
  pub headers : List (Text × Text)
  pub body : Text

pub record Response : Type 0 where
  pub status : ℕ
  pub body : Text

-- What `ClobAPIError` decodes from a body: the message and the code.
pub record ApiError : Type 0 where
  pub message : Text
  pub code : Text

pub record Services : Type 0 where
  pub new_request : Text → Text → Option Text
  pub send : ℕ → Request → Outcome Response
  pub unix_seconds : ℕ → ℕ
  pub base64_std : Text → Option Text
  pub base64_url : Text → Option Text
  pub hmac : Text → Text → Text
  pub marshal_order : SendOrder → Outcome Text
  pub marshal_orders : List SendOrder → Outcome Text
  pub marshal_ids : List Text → Outcome Text
  pub marshal_id : Text → Outcome Text
  pub unmarshal_error : Text → Option ApiError
  pub decode_order : Text → Outcome SendOrderResponse
  pub decode_orders : Text → Outcome (List SendOrderResponse)
  pub decode_cancel : Text → Outcome CancelOrdersResponse

-- `ClobAPIError.Error`
pub api_error_text : ApiError → ℕ → Text
api_error_text e status =
    if is_empty e.code
    then codes "clob: " ++ (e.message ++ (codes " (status=" ++ (decimal status ++ codes ")")))
    else codes "clob: "
      ++ (e.message
          ++ (codes " (code=" ++ (e.code ++ (codes ", status=" ++ (decimal status ++ codes ")")))))

-- The requests made so far, and what a call returns.
abbrev pub Replied : Type 0 → Type 0
Replied A = ℕ × Outcome A

module _ (w : Services) (c : ClobClient) where
  -- `l2Headers`: the secret is decoded in one of two alphabets, or taken as it is.
  pub decoded_secret : Text
  decoded_secret = elim (w.base64_std c.secret) [
    | some key ↦ key
    | none ↦ elim (w.base64_url c.secret) [ some key ↦ key | none ↦ c.secret ]
  ]

  pub l2_headers : ℕ → Text → Text → Text → List (Text × Text)
  unfolding decoded_secret
  l2_headers n method path body =
      let ts = decimal (w.unix_seconds n) in
      let addr = if is_empty c.signer_address then c.maker_address else c.signer_address in
      (codes "POLY_API_KEY", c.api_key)
      ∷ (codes "POLY_ADDRESS", addr)
      ∷ (codes "POLY_SIGNATURE", w.hmac decoded_secret (ts ++ (method ++ (path ++ body))))
      ∷ (codes "POLY_TIMESTAMP", ts)
      ∷ (codes "POLY_PASSPHRASE", c.passphrase)
      ∷ []

  -- The end of `doRequest`: a status from 400 on is an error.
  unfoldable pub check_status : Response → Outcome Text
  unfolding api_error_text
  check_status r =
      if leb 400 r.status
      then elim (w.unmarshal_error r.body) [
        | some e ↦ err (api_error_text e r.status)
        | none ↦ err (api_error_text (record { message = trim_space r.body; code = [] }) r.status)
      ]
      else ok r.body

  -- `doRequest`, up to the body of the answer.
  unfoldable pub do_request : ℕ → Text → Text → Text → Replied Text
  unfolding check_status l2_headers
  do_request n method path body =
      let url = c.base_url ++ path in
      elim (w.new_request method url) [
        | some e ↦ (n, err (codes "clob: create request: " ++ e))
        | none ↦
            let headers =
              l2_headers n method path body
              ++ (codes "Content-Type", codes "application/json") ∷ [] in
            let sent =
              w.send n (record { method = method; url = url; headers = headers; body = body }) in
            (suc n, wrap_error (codes "clob: request failed: ") sent >>= check_status)
      ]

  -- A request and the reading of its answer.
  unfoldable pub ask : {A : Type 0} → ℕ → Text → Text → Text → (Text → Outcome A) → Replied A
  unfolding do_request
  ask n method path body decode =
      let (n', reply) = do_request n method path body in
      (n', reply >>= λ text. wrap_error (codes "clob: decode response: ") (decode text))

  -- `PostOrder`
  unfoldable pub post_order : ℕ → SendOrder → Replied SendOrderResponse
  unfolding ask
  post_order n order = elim (w.marshal_order order) [
    | err e ↦ (n, err (codes "clob: marshal order: " ++ e))
    | ok body ↦ ask n (codes "POST") (codes "/order") body w.decode_order
  ]

  -- `PostOrders`
  pub post_orders : ℕ → List SendOrder → Replied (List SendOrderResponse)
  unfolding ask
  post_orders n [] = (n, err (codes "clob: no orders to post"))
  post_orders n (o ∷ os) =
      if ltb 15 (length (o ∷ os))
      then (n, err (codes "clob: max 15 orders per batch, got " ++ decimal (length (o ∷ os))))
      else elim (w.marshal_orders (o ∷ os)) [
        | err e ↦ (n, err (codes "clob: marshal orders: " ++ e))
        | ok body ↦ ask n (codes "POST") (codes "/orders") body w.decode_orders
      ]

  -- `ClobClient.CancelOrders`
  unfoldable pub cancel_batch : ℕ → List Text → Replied CancelOrdersResponse
  unfolding ask
  cancel_batch n [] = (n, ok (record { canceled = []; not_canceled = [] }))
  cancel_batch n (i ∷ is) =
      if ltb 1000 (length (i ∷ is))
      then (n, err (codes "clob: max 1000 order IDs per batch, got " ++ decimal (length (i ∷ is))))
      else elim (w.marshal_ids (i ∷ is)) [
        | err e ↦ (n, err (codes "clob: marshal order IDs: " ++ e))
        | ok body ↦ ask n (codes "DELETE") (codes "/orders") body w.decode_cancel
      ]

  -- `CancelOrder`
  pub cancel_order : ℕ → Text → Replied CancelOrdersResponse
  unfolding ask
  cancel_order n id = elim (w.marshal_id id) [
    | err e ↦ (n, err (codes "clob: marshal cancel payload: " ++ e))
    | ok body ↦ ask n (codes "DELETE") (codes "/order") body w.decode_cancel
  ]
