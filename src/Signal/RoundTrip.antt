-- ===== src/Signal/RoundTrip.antt =====
-- packages/execution/signal/src/hint-codec.ts: what is encoded is decoded, and what either accepts is
-- bounded.
use heptalogos.Prelude.{
  ℕ, ◌≡◌, ◌≤◌, refl, sym, ap, subst, ◌∙◌, Bool, true, false, ◌&&◌, ◌==◌, ==_iff, String, Option,
  none, some, leb, leb→le, if◌then◌else◌, and-true, some_inj,
}
use heptalogos.Prelude.Except.{
  Except, return, ◌>>=◌, ◌>>◌, unless_throw, return-injective, >>=-eq-return,
}
use heptalogos.Signal.Codec.{
  SignalProblem, topic_invalid, hint_invalid, hint_too_large, SignalHint, Codec,
  signal_hint_max_bytes, is_topic, parse_signal_topic, required, bounded, encode_signal_hint,
  decode_signal_hint,
}

passed : (b : Bool) (problem : SignalProblem) → unless_throw b problem ≡ return tt → b ≡ true
passed true problem e = refl
passed false problem e = cc

required-some :
    {Json A : Type 0} (c : Codec Json) (problem : SignalProblem) (o : Option A) {a : A}
    → required c problem o ≡ return a
    → o ≡ some a
required-some c problem none e = cc
required-some c problem (some x) e = ap some (return-injective e)

topic_kept :
    (b : Bool) (value topic : String)
    → (if b then some value else none) ≡ some topic
    → (b ≡ true) × (value ≡ topic)
topic_kept true value topic e = (refl, some_inj e)
topic_kept false value topic e = cc

module _ {Json : Type 0} (c : Codec Json) where
  -- JSON.parse reads back a canonical text, and the schema accepts a hint of a topic.
  pub record Reads : Type 0 where
    pub parses : (v : Json) → c.parse_json (c.canonicalize_json v) ≡ some v
    pub validates :
        (topic : String)
        → is_topic c topic ≡ true
        → c.validate_hint (c.hint_value 1 topic)
          ≡ some (record { schema_version = 1; topic = topic })

  -- What a call of the encoder that returned has checked.
  pub record Encoded (hint : SignalHint) (text : String) : Type 0 where
    pub version : hint.schema_version ≡ 1
    pub shaped : is_topic c hint.topic ≡ true
    pub small : leb (c.byte_length text) signal_hint_max_bytes ≡ true
    pub written : c.canonicalize_json (c.hint_value 1 hint.topic) ≡ text

  encode-Encoded :
      (hint : SignalHint) (text : String)
      → encode_signal_hint c hint ≡ return text
      → Encoded hint text
  unfolding encode_signal_hint parse_signal_topic
  encode-Encoded hint text e =
      let (u, p, q) = >>=-eq-return (unless_throw (hint.schema_version == 1) hint_invalid) _ e in
      let (topic, p', q') =
        >>=-eq-return (required c hint_invalid (parse_signal_topic c hint.topic)) _ q in
      let encoded = c.canonicalize_json (c.hint_value 1 topic) in
      let (u', p'', q'') = >>=-eq-return (bounded c encoded) _ q' in
      let (shaped, kept) =
        topic_kept (is_topic c hint.topic) hint.topic topic
          (required-some c hint_invalid (parse_signal_topic c hint.topic) p') in
      let text_eq : encoded ≡ text = return-injective q'' in
      record {
        version =
            (==_iff hint.schema_version 1).0 (passed (hint.schema_version == 1) hint_invalid p);
        shaped = shaped;
        small =
            subst (λ z. leb (c.byte_length z) signal_hint_max_bytes ≡ true) text_eq
              (passed (leb (c.byte_length encoded) signal_hint_max_bytes) hint_too_large p'');
        written = ap (λ z. c.canonicalize_json (c.hint_value 1 z)) kept ∙ text_eq;
      }

  decode_written :
      (hint : SignalHint) (text : String)
      → Reads
      → Encoded hint text
      → decode_signal_hint c (some text) ≡ return hint
  unfolding decode_signal_hint parse_signal_topic
  decode_written hint text r e =
      let v = c.hint_value 1 hint.topic in
      let parsed : c.parse_json text ≡ some v =
        subst (λ z. c.parse_json z ≡ some v) e.written (r.parses v) in
      let answer : Option String → Except SignalProblem SignalHint = λ o.
        required c topic_invalid o >>= λ topic.
        return (record { schema_version = 1; topic = topic }) in
      let check : Option SignalHint → Except SignalProblem SignalHint =
        λ o. required c hint_invalid o >>= λ h. answer (parse_signal_topic c h.topic) in
      ap
        (λ b.
          unless_throw b hint_too_large
          >> (required c hint_invalid (c.parse_json text) >>= λ j. check (c.validate_hint j)))
        e.small
      ∙ ap (λ o. required c hint_invalid o >>= λ j. check (c.validate_hint j)) parsed
      ∙ ap check (r.validates hint.topic e.shaped)
      ∙ ap (λ b. answer (if b then some hint.topic else none)) e.shaped
      ∙ ap (λ n. return (record { schema_version = n; topic = hint.topic })) (sym e.version)

-- Where JSON.parse reads back canonical JSON and the schema accepts a hint of a valid topic, a hint
-- that is encoded is decoded as it was.
pub decode-encode :
    {Json : Type 0} (c : Codec Json) (hint : SignalHint) (text : String)
    → Reads c
    → encode_signal_hint c hint ≡ return text
    → decode_signal_hint c (some text) ≡ return hint
decode-encode c hint text r e = decode_written c hint text r (encode-Encoded c hint text e)

topic_units : (n : ℕ) (shape : Bool) → (leb 1 n && leb n 128 && shape) ≡ true → (1 ≤ n) × (n ≤ 128)
topic_units n shape e =
    let (h, k) = and-true (leb 1 n && leb n 128) shape e in
    let (l, u) = and-true (leb 1 n) (leb n 128) h in (leb→le 1 n l, leb→le n 128 u)

-- A payload that is decoded is a text of at most 512 bytes, and its hint has version 1 and a topic of
-- 1 to 128 units that has the topic's shape.
pub decode_bounds :
    {Json : Type 0} (c : Codec Json) (value : Option String) (hint : SignalHint)
    → decode_signal_hint c value ≡ return hint
    → (text : String) × (value ≡ some text)
      × (c.byte_length text ≤ 512)
      × (hint.schema_version ≡ 1)
      × (1 ≤ c.unit_length hint.topic)
      × (c.unit_length hint.topic ≤ 128)
      × (is_topic c hint.topic ≡ true)
unfolding decode_signal_hint parse_signal_topic
decode_bounds c value hint e =
    let (text, p, q) = >>=-eq-return (required c hint_invalid value) _ e in
    let (u, p', q') = >>=-eq-return (bounded c text) _ q in
    let (parsed, pj, qj) = >>=-eq-return (required c hint_invalid (c.parse_json text)) _ q' in
    let (result, pr, qr) = >>=-eq-return (required c hint_invalid (c.validate_hint parsed)) _ qj in
    let (topic, pt, qt) =
      >>=-eq-return (required c topic_invalid (parse_signal_topic c result.topic)) _ qr in
    let (shaped, kept) =
      topic_kept (is_topic c result.topic) result.topic topic
        (required-some c topic_invalid (parse_signal_topic c result.topic) pt) in
    let answer = return-injective qt in
    let same : result.topic ≡ hint.topic = kept ∙ ap (λ h. h.topic) answer in
    let good : is_topic c hint.topic ≡ true = subst (λ z. is_topic c z ≡ true) same shaped in
    let (low, high) = topic_units (c.unit_length hint.topic) (c.topic_shape hint.topic) good in
    (
      text,
      required-some c hint_invalid value p,
      leb→le (c.byte_length text) 512 (passed (leb (c.byte_length text) 512) hint_too_large p'),
      sym (ap (λ h. h.schema_version) answer),
      low,
      high,
      good,
    )
