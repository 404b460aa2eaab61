-- ===== src/Signal/Tests.antt =====
-- A codec of hints whose values are pairs.
use heptalogos.Prelude.{ℕ, ◌≡◌, ◌≤◌, refl, true, String, some, str_eq, if◌then◌else◌}
use heptalogos.Prelude.Except.{return, throw}
use heptalogos.Signal.Codec.{
  SignalProblem, SignalHint, Codec, is_topic, parse_signal_topic, encode_signal_hint,
  decode_signal_hint,
}
use heptalogos.Signal.RoundTrip.{Reads, decode-encode, decode_bounds}

-- A JSON value is the topic of a hint of version 1, and its text.
abbrev plain : Codec String
plain = record {
  hint_value = λ version topic. topic;
  canonicalize_json = λ v. v;
  parse_json = λ text. some text;
  validate_hint = λ v. some (record { schema_version = 1; topic = v });
  topic_shape = λ topic. true;
  unit_length = λ text. if str_eq text "" then 0 else 1;
  byte_length = λ text. if str_eq text "" then 0 else 1;
}

plain_reads : Reads plain
plain_reads = record { parses = λ v. refl; validates = λ topic e. refl }

abbrev wake : SignalHint
wake = record { schema_version = 1; topic = "work.ready" }

decode-encode_example : decode_signal_hint plain (some "work.ready") ≡ return wake
unfolding encode_signal_hint parse_signal_topic
decode-encode_example = decode-encode plain wake "work.ready" plain_reads refl

empty_refused : decode_signal_hint plain (some "") ≡ throw SignalProblem.topic_invalid
unfolding decode_signal_hint parse_signal_topic
empty_refused = refl

decode_bounds_example :
    (text : String) × (some "work.ready" ≡ some text)
    × (plain.byte_length text ≤ 512)
    × (◌≡◌ {A = ℕ} 1 1)
    × (1 ≤ plain.unit_length "work.ready")
    × (plain.unit_length "work.ready" ≤ 128)
    × (is_topic plain "work.ready" ≡ true)
unfolding decode_signal_hint parse_signal_topic
decode_bounds_example = decode_bounds plain (some "work.ready") wake refl
