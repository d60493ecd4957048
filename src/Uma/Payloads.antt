-- ===== src/Uma/Payloads.antt =====
-- The payloads that uma/uma.go signs: what a signed string stands for.
use uma_go_sdk.Base.{◌≡◌, sym, ap, ◌∙◌, arith, some, [], ◌∷◌, Bytes, Lacks}
use uma_go_sdk.Base.Int.{ℤ, IsInt64, wrap_i64-IsInt64}
use uma_go_sdk.Go.Strings.{split, split-join}
use uma_go_sdk.Go.Strconv.{format_int, parse_int}
use uma_go_sdk.Go.Strconv.RoundTrip.{IsSeparator, format_int-Lacks, parse_int-format_int}
use uma_go_sdk.Go.Time.{Time, unix_seconds}
use uma_go_sdk.Go.Result.{ok}
use uma_go_sdk.Protocol.LnurlpRequest.{LnurlpRequest, signable_payload}
use uma_go_sdk.Protocol.LnurlpRequest.Encoding.{whole_payload, signable_payload-ok}

bar-IsSeparator : IsSeparator b'|'
bar-IsSeparator = (omega arith, λ c h e. omega arith)

format_int_injective : (a b : ℤ) → IsInt64 a → IsInt64 b → format_int a ≡ format_int b → a ≡ b
format_int_injective a b h k e =
    let same : some a ≡ some b =
      sym (parse_int-format_int a h) ∙ ap parse_int e ∙ parse_int-format_int b k in
    cc

split_payload :
    (address nonce : Bytes) (t : Time)
    → Lacks b'|' address
    → Lacks b'|' nonce
    → split b'|' (whole_payload address nonce t)
      ≡ address ∷ nonce ∷ format_int (unix_seconds t) ∷ []
split_payload address nonce t ha hn =
    split-join b'|' address (nonce ∷ format_int (unix_seconds t) ∷ [])
      (ha, (hn, (format_int-Lacks b'|' (unix_seconds t) bar-IsSeparator, tt)))

whole_payload_injective :
    (address nonce address' nonce' : Bytes) (t t' : Time)
    → Lacks b'|' address
    → Lacks b'|' nonce
    → Lacks b'|' address'
    → Lacks b'|' nonce'
    → whole_payload address nonce t ≡ whole_payload address' nonce' t'
    → (address ≡ address') × (nonce ≡ nonce') × (unix_seconds t ≡ unix_seconds t')
whole_payload_injective address nonce address' nonce' t t' ha hn ha' hn' e =
    let parts : address ∷ nonce ∷ format_int (unix_seconds t) ∷ []
        ≡ address' ∷ nonce' ∷ format_int (unix_seconds t') ∷ [] =
      sym (split_payload address nonce t ha hn)
      ∙ ap (split b'|') e
      ∙ split_payload address' nonce' t' ha' hn' in
    (
      cc,
      cc,
      format_int_injective (unix_seconds t) (unix_seconds t')
          (unfold unix_seconds in wrap_i64-IsInt64 _) (unfold unix_seconds in wrap_i64-IsInt64 _)
          cc,
    )

-- Two requests with the same signed payload have the same receiver, the same nonce and the same
-- second, if neither receivers nor nonces have a `|` in them.
pub payload_injective :
    (q q' : LnurlpRequest) (payload : Bytes)
    → Lacks b'|' q.receiver_address
    → Lacks b'|' q'.receiver_address
    → ((n : Bytes) → q.nonce ≡ some n → Lacks b'|' n)
    → ((n : Bytes) → q'.nonce ≡ some n → Lacks b'|' n)
    → signable_payload q ≡ ok payload
    → signable_payload q' ≡ ok payload
    → (nonce : Bytes) × (t : Time) × (t' : Time) × (q.receiver_address ≡ q'.receiver_address)
      × (q.nonce ≡ some nonce)
      × (q'.nonce ≡ some nonce)
      × (q.timestamp ≡ some t)
      × (q'.timestamp ≡ some t')
      × (unix_seconds t ≡ unix_seconds t')
payload_injective q q' payload ha ha' hn hn' h h' =
    let (nonce, t, en, et, e) = signable_payload-ok q payload h in
    let (nonce', t', en', et', e') = signable_payload-ok q' payload h' in
    let (addresses, nonces, seconds) =
      whole_payload_injective q.receiver_address nonce q'.receiver_address nonce' t t' ha
        (hn nonce en) ha' (hn' nonce' en') (e ∙ sym e') in
    (nonce, t, t', addresses, en, en' ∙ ap some (sym nonces), et, et', seconds)
