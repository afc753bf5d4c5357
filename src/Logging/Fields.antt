-- ===== src/Logging/Fields.antt =====
-- Which fields of a record reach its log line (`CloudLoggingFormatter` of app/logging_config.py).
use thinking_feature_flag_se.Common.{
  ◌≡◌, ◌≢◌, ◌⊎◌, refl, sym, ◌∙◌, String, true, false, Option, none, some, List, [], ◌∷◌, ◌==◌,
  string_eq, All, In, here, there, if-either, Bool-cases, inl, inr, eq_of_test, eq_self,
}
use thinking_feature_flag_se.Services.{Settings}
use thinking_feature_flag_se.Logging.{
  LogField, text, extra, Payload, LogRecord, put, lookup, put_exception, is_extra, put_extras,
  heading, format,
}

module _ {V : Type 0} where
  lookup-put_self :
      (key : String) (value : LogField V) (payload : Payload V)
      → lookup key (put key value payload) ≡ some value
  unfolding lookup put
  lookup-put_self key value [] = rw (eq_self key) refl
  lookup-put_self key value ((k, v) ∷ payload) = elim (Bool-cases (k == key)) [
    | inl same ↦ rw (same, same) refl
    | inr other ↦ rw (other, other) (lookup-put_self key value payload)
  ]

  lookup-put_other :
      (key other : String) (value : LogField V) (payload : Payload V)
      → other ≢ key
      → lookup key (put other value payload) ≡ lookup key payload
  unfolding lookup put
  lookup-put_other key other value [] differ = elim (Bool-cases (other == key)) [
    | inl same ↦ absurd (differ (eq_of_test other key same))
    | inr apart ↦ rw apart refl
  ]
  lookup-put_other key other value ((k, v) ∷ payload) differ = elim (Bool-cases (k == other)) [
    | inr apart ↦ rw (apart, lookup-put_other key other value payload differ) refl
    | inl same ↦
        let missed : (k == key) ≡ false = elim (Bool-cases (k == key)) [
          | inr apart ↦ apart
          | inl found ↦ absurd (differ (sym (eq_of_test k other same) ∙ eq_of_test k key found))
        ] in
        rw (same, missed) refl
  ]

  -- Distinct attributes.
  abbrev pub Distinct : List (String × V) → Type 0
  Distinct [] = Unit
  Distinct ((key, value) ∷ attributes) =
      All (λ (a : String × V). a.0 ≢ key) attributes × Distinct attributes

  put_extras-kept :
      (key : String) (attributes : List (String × V)) (payload : Payload V)
      → All (λ (a : String × V). a.0 ≢ key) attributes
      → lookup key (put_extras attributes payload) ≡ lookup key payload
  unfolding put_extras
  put_extras-kept key [] payload h = refl
  put_extras-kept key ((k, v) ∷ attributes) payload h =
      put_extras-kept key attributes _ h.1
      ∙ if-either (λ l. lookup key l ≡ lookup key payload) (is_extra k)
          (lookup-put_other key k (extra v) payload h.0) refl

  put_extras-lookup :
      (key : String) (value : V) (attributes : List (String × V)) (payload : Payload V)
      → is_extra key ≡ true
      → Distinct attributes
      → In (key, value) attributes
      → lookup key (put_extras attributes payload) ≡ some (extra value)
  unfolding put_extras
  put_extras-lookup key value [] payload h distinct place = elim place [ ]
  put_extras-lookup key value ((k, v) ∷ attributes) payload h distinct (there place) =
      put_extras-lookup key value attributes _ h distinct.1 place
  put_extras-lookup key value ((k, v) ∷ attributes) payload h distinct here = rw h (
      put_extras-kept key attributes (put key (extra value) payload) distinct.0
      ∙ lookup-put_self key (extra value) payload)

  -- Every attribute that a call gives as `extra` stands in the log line under its own name and with
  -- its own value, whatever the formatter has put there before; but for the name `exception` of a
  -- record that carries an exception.
  pub format-extra :
      (settings : Settings) (request_id trace_id : Option String) (logged : LogRecord V)
      (key : String) (value : V)
      → is_extra key ≡ true
      → Distinct logged.attributes
      → In (key, value) logged.attributes
      → (key ≢ "exception") ⊎ (logged.exception ≡ none)
      → lookup key (format settings request_id trace_id logged) ≡ some (extra value)
  unfolding format
  format-extra settings request_id trace_id logged key value h distinct place free =
      of_exception logged.exception free
    where
      of_exception :
          (exception : Option String)
          → (key ≢ "exception") ⊎ (exception ≡ none)
          → lookup key (
              put_exception exception
                (put_extras logged.attributes (heading settings request_id trace_id logged)))
            ≡ some (extra value)
      of_exception none e =
          put_extras-lookup key value logged.attributes
            (heading settings request_id trace_id logged) h distinct place
      of_exception (some trace) (inr e) = cc
      of_exception (some trace) (inl e) =
          lookup-put_other key "exception" (text trace)
            (put_extras logged.attributes (heading settings request_id trace_id logged))
            (λ same. e (sym same))
          ∙ put_extras-lookup key value logged.attributes
              (heading settings request_id trace_id logged) h distinct place
