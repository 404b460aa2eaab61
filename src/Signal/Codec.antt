-- ===== src/Signal/Codec.antt =====
-- packages/execution/signal/src/hint-codec.ts: the encoding of a hint and its decoding. The canonical
-- JSON text, JSON.parse, the compiled schema, the topic's pattern and the lengths of a text in UTF-16
-- units and in UTF-8 bytes are parameters.
use heptalogos.Prelude.{ℕ, Bool, ◌&&◌, ◌==◌, String, Option, none, some, leb, if◌then◌else◌}
use heptalogos.Prelude.Except.{Except, return, throw, ◌>>=◌, ◌>>◌, unless_throw}

pub data SignalProblem : Type 0 where
  topic_invalid hint_invalid hint_too_large : SignalProblem

pub record SignalHint : Type 0 where
  pub schema_version : ℕ
  pub topic : String

-- What the code is given, over the values of JSON. A schema that accepts a value answers its hint.
pub record Codec (Json : Type 0) : Type 0 where
  pub hint_value : ℕ → String → Json
  pub canonicalize_json : Json → String
  pub parse_json : String → Option Json
  pub validate_hint : Json → Option SignalHint
  pub topic_shape : String → Bool
  pub unit_length : String → ℕ
  pub byte_length : String → ℕ

abbrev pub signal_hint_max_bytes : ℕ
signal_hint_max_bytes = 512

module _ {Json : Type 0} (c : Codec Json) where
  abbrev pub is_topic : String → Bool
  is_topic value =
      leb 1 (c.unit_length value) && leb (c.unit_length value) 128 && c.topic_shape value

  unfoldable pub create_signal_topic : String → Except SignalProblem String
  create_signal_topic value = if is_topic value then return value else throw topic_invalid

  -- The value is a text.
  unfoldable pub parse_signal_topic : String → Option String
  parse_signal_topic value = if is_topic value then some value else none

  abbrev pub required : {A : Type 0} → SignalProblem → Option A → Except SignalProblem A
  required problem none = throw problem
  required problem (some a) = return a

  abbrev pub bounded : String → Except SignalProblem (Unit {0})
  bounded text = unless_throw (leb (c.byte_length text) signal_hint_max_bytes) hint_too_large

  unfoldable pub encode_signal_hint : SignalHint → Except SignalProblem String
  unfolding parse_signal_topic
  encode_signal_hint hint = do
    unless_throw (hint.schema_version == 1) hint_invalid
    topic ← required hint_invalid (parse_signal_topic hint.topic)
    let encoded = c.canonicalize_json (c.hint_value 1 topic)
    bounded encoded
    return encoded

  -- A payload that is no text is none.
  unfoldable pub decode_signal_hint : Option String → Except SignalProblem SignalHint
  unfolding parse_signal_topic
  decode_signal_hint value = do
    text ← required hint_invalid value
    bounded text
    parsed ← required hint_invalid (c.parse_json text)
    result ← required hint_invalid (c.validate_hint parsed)
    topic ← required topic_invalid (parse_signal_topic result.topic)
    return (record { schema_version = 1; topic = topic })
