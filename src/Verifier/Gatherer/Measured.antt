-- ===== src/Verifier/Gatherer/Measured.antt =====
-- What a gathered metric has come from.
use go_on_call_agent.Prelude.{
  ℕ, String, true, false, List, [], ◌∷◌, ◌==◌, str_eq, ◌<>◌, ◌≡◌, refl, ap, sym, ◌∙◌, arith,
  Bool-cases, inl, inr, eq_iff,
}
use go_on_call_agent.Errors.{Result, ok, err, Result-cases, bind-of_ok, ok_injective}
use go_on_call_agent.Verifier.{Float64, Metrics}
use go_on_call_agent.Verifier.Gatherer.{
  PrometheusGatherer, SampleValue, quoted_number, number, other, Answer, Exchange, read_value,
  finite, first_value, read_answer, read_body, query_scalar, gather,
}

module _ (F : Float64) (X : Exchange F) where
  open F use {Carrier}
  open X use {get, decode, query_escape, is_nan, is_inf, to_int}

  -- A sample's value as a number: that number, or a text that is parsed to it. Nothing else is one.
  abbrev pub IsNumber : SampleValue F → Carrier → Type 0
  IsNumber (quoted_number s) v = X.parse_float s ≡ ok v
  IsNumber (number w) v = w ≡ v
  IsNumber (other t) v = ⊥

  -- What a query that gives a value has received: an answer of status 200 and of success, whose first
  -- sample has a second value, which is that number or a text of it; and the number is finite.
  pub data IsMeasured (g : PrometheusGatherer) (query : String) (v : Carrier) : Type 0 where
    measured :
        (body : String) (a : Answer F) (time value : SampleValue F) (rest : List (SampleValue F))
        (samples : List (List (SampleValue F)))
        → get (g.base_url <> "/api/v1/query?query=" <> query_escape query) ≡ ok (200, body)
        → decode body ≡ ok a
        → a.status ≡ "success"
        → a.samples ≡ (time ∷ value ∷ rest) ∷ samples
        → IsNumber value v
        → is_nan v ≡ false
        → is_inf v ≡ false
        → IsMeasured g query v

  finite-of_ok :
      (query : String) (r : Result Carrier) (v : Carrier)
      → finite F X query r ≡ ok v
      → (r ≡ ok v) × (is_nan v ≡ false) × (is_inf v ≡ false)
  unfolding finite
  finite-of_ok query (err e) v h = ground (arith, h)
  finite-of_ok query (ok w) v h = ground (arith, h)

  first_value-of_ok :
      (query : String) (samples : List (List (SampleValue F))) (v : Carrier)
      → first_value F X query samples ≡ ok v
      → (time : SampleValue F) × (value : SampleValue F) × (rest : List (SampleValue F))
        × (others : List (List (SampleValue F))) × (samples ≡ (time ∷ value ∷ rest) ∷ others)
        × (finite F X query (read_value F X query value) ≡ ok v)
  unfolding first_value
  first_value-of_ok query [] v h = ground (arith, h)
  first_value-of_ok query ([] ∷ others) v h = ground (arith, h)
  first_value-of_ok query ((t ∷ []) ∷ others) v h = ground (arith, h)
  first_value-of_ok query ((t ∷ w ∷ rest) ∷ others) v h = (t, w, rest, others, refl, h)

  read_answer-of_ok :
      (query : String) (r : Result (Answer F)) (v : Carrier)
      → read_answer F X query r ≡ ok v
      → (a : Answer F) × (r ≡ ok a)
        × (a.status ≡ "success")
        × (first_value F X query a.samples ≡ ok v)
  unfolding read_answer
  read_answer-of_ok query (err e) v h = ground (arith, h)
  read_answer-of_ok query (ok a) v h = elim (Bool-cases (str_eq a.status "success")) [
    | inl success ↦ (a, refl, (eq_iff a.status "success").0 success, ground (arith, h, success))
    | inr failed ↦ ground (arith, h, failed)
  ]

  is_200 : (n : ℕ) → n == 200 ≡ true → n ≡ 200
  is_200 n h = ground (arith, h)

  read_body-of_ok :
      (query : String) (r : Result (ℕ × String)) (v : Carrier)
      → read_body F X query r ≡ ok v
      → (body : String) × (r ≡ ok (200, body)) × (read_answer F X query (decode body) ≡ ok v)
  unfolding read_body
  read_body-of_ok query (err e) v h = ground (arith, h)
  read_body-of_ok query (ok (status, body)) v h = elim (Bool-cases (status == 200)) [
    | inl fine ↦ (body, ap (λ n. ok (n, body)) (is_200 status fine), ground (arith, h, fine))
    | inr bad ↦ ground (arith, h, bad)
  ]

  read_value-IsNumber :
      (query : String) (value : SampleValue F) (v : Carrier)
      → read_value F X query value ≡ ok v
      → IsNumber value v
  unfolding read_value
  read_value-IsNumber query (quoted_number s) v h = elim (Result-cases (X.parse_float s)) [
    | inl (w, parsed) ↦ ground (arith, h, parsed)
    | inr (e, failed) ↦ ground (arith, h, failed)
  ]
  read_value-IsNumber query (number w) v h = ok_injective w v h
  read_value-IsNumber query (other t) v h = ground (arith, h)

  query_scalar-IsMeasured :
      (g : PrometheusGatherer) (query : String) (v : Carrier)
      → query_scalar F X g query ≡ ok v
      → IsMeasured g query v
  unfolding query_scalar
  query_scalar-IsMeasured g query v h =
      let url = g.base_url <> "/api/v1/query?query=" <> query_escape query in
      let (body, got, answered) = read_body-of_ok query (get url) v h in
      let (a, decoded, success, valued) = read_answer-of_ok query (decode body) v answered in
      let (time, value, rest, others, shape, last) = first_value-of_ok query a.samples v valued in
      let (was_read, no_nan, no_inf) = finite-of_ok query (read_value F X query value) v last in
      measured body a time value rest others got decoded success shape
        (read_value-IsNumber query value v was_read) no_nan no_inf

  -- Metrics are gathered only from three finite values, each of its own query: of a successful answer
  -- whose first sample has a number, or a text that is parsed to one. No data, a failed query and a value
  -- of any other kind give an error and never a zero.
  pub gather-IsMeasured :
      (g : PrometheusGatherer) (m : Metrics F)
      → gather F X g ≡ ok m
      → (consumers : Carrier) × (depth : Carrier) × IsMeasured g g.queries.consumers consumers
        × (m.consumer_count ≡ to_int consumers)
        × IsMeasured g g.queries.queue_depth depth
        × (m.queue_depth ≡ to_int depth)
        × IsMeasured g g.queries.error_rate m.error_rate
  unfolding gather
  gather-IsMeasured g m h =
      let scalar : String → Result Carrier = query_scalar F X g in
      let (consumers, first, h1) = bind-of_ok (scalar g.queries.consumers) _ m h in
      let (depth, second, h2) = bind-of_ok (scalar g.queries.queue_depth) _ m h1 in
      let (rate, third, h3) = bind-of_ok (scalar g.queries.error_rate) _ m h2 in
      let same = ok_injective _ m h3 in
      (
        consumers,
        depth,
        query_scalar-IsMeasured g g.queries.consumers consumers first,
        ap (λ n. n.consumer_count) (sym same),
        query_scalar-IsMeasured g g.queries.queue_depth depth second,
        ap (λ n. n.queue_depth) (sym same),
        query_scalar-IsMeasured g g.queries.error_rate m.error_rate
            (third ∙ ap ok (ap (λ n. n.error_rate) same)),
      )
