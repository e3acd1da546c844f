-- ===== src/Gateway/Fallback.antt =====
-- packages/gateway/src/gateway/router.py: what `AIGateway.generate` answers, and how often it calls a
-- provider.
use governed_agent_platform.Prelude.{
  ℕ, suc, ◌+◌, ◌≤◌, String, Bool, true, false, ◌≡◌, refl, ◌∙◌, Option, none, some, Option-cases,
  inl, inr, string_eq, arith, Value, as_dict, some-injective, if◌then◌else◌, ◌⊎◌,
}
use governed_agent_platform.Prelude.Dict.{lookup, insert, lookup-insert, lookup-insert_self}
use governed_agent_platform.Prelude.Exec.{Result, ok, raised, Result-cases, pure, continue}
use governed_agent_platform.Gateway.Types.{
  ProviderName, provider_eq, ModelRequest, ModelResponse, RouteDecision, ProviderError,
  GatewayError, provider_error, key_error, other, ProviderAdapter, to_dict,
}
use governed_agent_platform.Gateway.Policies.{
  Adapters, is_some, is_usable, select_route, should_fallback,
}
use governed_agent_platform.Gateway.Router.{
  AiGateway, attach_route_metadata, recorded, get_adapter, route, fall_back, except_provider_error,
  model_or_empty, try_primary, serve, generate,
}
use governed_agent_platform.Gateway.Routes.{Answers, RouteFits, FallbackFits, select_route-Fits}

-- The entry of a response's metadata that says whether the fallback answered.
abbrev pub fallback_used : ModelResponse → Option Value
fallback_used x = lookup "fallback_used" x.metadata

-- The answer `x` is what a provider gave at some call with the model, but for the route in it.
abbrev pub IsFrom :
    {W : Type 0} → Adapters W → ModelRequest → ProviderName → String → ModelResponse → Type 0
IsFrom {W} adapters request p model x =
    (a : ProviderAdapter W) × ((w : W) × ((y : ModelResponse) × ((lookup p adapters ≡ some a)
          × (((a.generate request model w).0 ≡ ok y) × (x.output_text ≡ y.output_text)))))

-- A provider raised the error at some call with the model.
abbrev pub Raised :
    {W : Type 0} → Adapters W → ModelRequest → ProviderName → String → ProviderError → Type 0
Raised {W} adapters request p model e =
    (a : ProviderAdapter W) × ((w : W) × ((lookup p adapters ≡ some a)
        × ((a.generate request model w).0 ≡ raised (provider_error e))))

-- The fallback provider answered after an error of the first one that allows it.
abbrev pub FellBack :
    {W : Type 0} → Adapters W → ModelRequest → RouteDecision → ModelResponse → Type 0
FellBack adapters request d x =
    (p : ProviderName) × ((e : ProviderError) × ((d.fallback_provider ≡ some p)
        × ((should_fallback request d e ≡ true)
            × (Raised adapters request d.primary_provider d.primary_model e
                × IsFrom adapters request p (model_or_empty d.fallback_model) x))))

-- How a response names its route, by who gave it: the first provider, or the fallback.
abbrev pub Tells : {W : Type 0} → Adapters W → ModelRequest → RouteDecision → ModelResponse → Type 0
Tells adapters request d x =
    (x.route_decision ≡ some d)
    × (((fallback_used x ≡ some (Value.bool false))
          × IsFrom adapters request d.primary_provider d.primary_model x)
        ⊎ ((fallback_used x ≡ some (Value.bool true)) × FellBack adapters request d x))

abbrev pub ToldBy :
    {W : Type 0}
    → Adapters W
    → ModelRequest
    → Result GatewayError RouteDecision
    → Result GatewayError ModelResponse
    → Type 0
ToldBy adapters request (ok d) (ok x) = Tells adapters request d x
ToldBy adapters request (raised e) (ok x) = ⊥
ToldBy adapters request q (raised e) = Unit

attached :
    (x : ModelResponse) (d : RouteDecision) (b : Bool) (e : Option ProviderError)
    → fallback_used (attach_route_metadata x d b e) ≡ some (Value.bool b)
unfolding attach_route_metadata
attached x d b none = lookup-insert_self "fallback_used" (Value.bool b) x.metadata
attached x d b (some e) =
    lookup-insert "primary_error" "fallback_used" (as_dict (to_dict e))
      (insert "fallback_used" (Value.bool b) x.metadata)
    ∙ lookup-insert_self "fallback_used" (Value.bool b) x.metadata

module _ {W : Type 0} (g : AiGateway W) (request : ModelRequest) where
  adapter_found :
      (o : Option ProviderName) (a : ProviderAdapter W)
      → get_adapter g.adapters o ≡ ok a
      → (p : ProviderName) × ((o ≡ some p) × (lookup p g.adapters ≡ some a))
  unfolding get_adapter
  adapter_found none a h = absurd (ground arith)
  adapter_found (some p) a h = (p, (refl, ground arith))

  fallback_given :
      (d : RouteDecision) (e : ProviderError) (a : ProviderAdapter W) (w : W)
      (r : Result GatewayError ModelResponse) (v : W)
      → (a.generate request (model_or_empty d.fallback_model) w).0 ≡ r
      → get_adapter g.adapters d.fallback_provider ≡ ok a
      → should_fallback request d e ≡ true
      → Raised g.adapters request d.primary_provider d.primary_model e
      → ToldBy g.adapters request
          (ok d)
          (continue {S = W} r (λ x. pure (attach_route_metadata x d true (some e))) v).0
  unfolding attach_route_metadata
  fallback_given d e a w (ok y) v gave got h failed =
      let (p, (at, found)) = adapter_found d.fallback_provider a got in
      (
        refl,
        inr (
          attached y d true (some e),
          (p, (e, (at, (h, (failed, (a, (w, (y, (found, (gave, refl)))))))))),
        ),
      )
  fallback_given d e a w (raised k) v gave got h failed = tt

  fall_back-Told :
      (d : RouteDecision) (e : ProviderError) (w : W)
      → should_fallback request d e ≡ true
      → Raised g.adapters request d.primary_provider d.primary_model e
      → ToldBy g.adapters request (ok d) (fall_back g request d e w).0
  unfolding fall_back
  fall_back-Told d e w h failed = elim (Result-cases (get_adapter g.adapters d.fallback_provider)) [
    | inl (a, got) ↦ rw got (fallback_given d e a w _ _ refl got h failed)
    | inr (k, missing) ↦ rw missing tt
  ]

  except-Told :
      (d : RouteDecision) (a : ProviderAdapter W) (w : W) (r : Result GatewayError ModelResponse)
      (v : W)
      → (a.generate request d.primary_model w).0 ≡ r
      → lookup d.primary_provider g.adapters ≡ some a
      → ToldBy g.adapters request (ok d) (except_provider_error g request d r v).0
  unfolding except_provider_error attach_route_metadata
  except-Told d a w (ok x) v gave found =
      (refl, inl (attached x d false none, (a, (w, (x, (found, (gave, refl)))))))
  except-Told d a w (raised (provider_error e)) v gave found = ground (
    arith,
    λ (h : should_fallback request d e ≡ true). fall_back-Told d e v h (a, (w, (found, gave))),
  )
  except-Told d a w (raised (key_error k)) v gave found = tt
  except-Told d a w (raised (other k)) v gave found = tt

  serve-Told :
      (d : RouteDecision) (w : W) → ToldBy g.adapters request (ok d) (serve g request d w).0
  unfolding serve
  serve-Told d w = elim (Result-cases (get_adapter g.adapters (some d.primary_provider))) [
    | inl (a, got) ↦
        let (p, (at, found)) = adapter_found (some d.primary_provider) a got in
        rw got (except-Told d a w _ _ refl (rw (some-injective _ _ at) found))
    | inr (k, missing) ↦ rw missing tt
  ]

  -- An answer of `generate` carries the selected route. Its metadata say that the fallback was not
  -- used where the first provider of the route gave the answer, and that it was used where the
  -- fallback provider gave it, after an error of the first provider for which the request and the
  -- route allow a fallback. Without a selected route there is no answer.
  pub generate-ToldBy :
      (w : W)
      → ToldBy g.adapters request
          (select_route request g.config g.adapters)
          (generate g request w).0
  unfolding generate route
  generate-ToldBy w = grind (arith, serve-Told)

-- The calls that one `generate` may make.
abbrev pub most_calls : ModelRequest → ℕ
most_calls r = if r.allow_fallback then 2 else 1

module _ {W : Type 0} (g : AiGateway W) (request : ModelRequest) (count : W → ℕ)
    (counts : (p : ProviderName) (a : ProviderAdapter W) (m : String) (w : W)
      → lookup p g.adapters ≡ some a
      → count (a.generate request m w).1 ≡ suc (count w))
    (keeps : (d : RouteDecision) (w : W)
      → count (recorded g.route_decision_recorder d w).1 ≡ count w) where
  found_fallback :
      (o : Option ProviderName) (a : ProviderAdapter W) (m : String) (w : W)
      → get_adapter g.adapters o ≡ ok a
      → count (a.generate request m w).1 ≡ suc (count w)
  unfolding get_adapter
  found_fallback none a m w h = ground arith
  found_fallback (some p) a m w h = counts p a m w (ground arith)

  fall_back-calls :
      (d : RouteDecision) (e : ProviderError) (w : W)
      → count (fall_back g request d e w).1 ≤ suc (count w)
  unfolding fall_back
  fall_back-calls d e w = elim (Result-cases (get_adapter g.adapters d.fallback_provider)) [
    | inl (a, found) ↦
        rw found ground
          (arith, found_fallback d.fallback_provider a (model_or_empty d.fallback_model) w found)
    | inr (e, missing) ↦ rw missing (ground arith)
  ]

  except-calls :
      (d : RouteDecision) (r : Result GatewayError ModelResponse) (w : W)
      → suc (count (except_provider_error g request d r w).1) ≤ most_calls request + count w
  unfolding except_provider_error should_fallback
  except-calls d (ok x) w = ground arith
  except-calls d (raised (provider_error e)) w = ground (arith, fall_back-calls d e w)
  except-calls d (raised (key_error k)) w = ground arith
  except-calls d (raised (other k)) w = ground arith

  serve-calls :
      (d : RouteDecision) (w : W) → count (serve g request d w).1 ≤ most_calls request + count w
  unfolding serve
  serve-calls d w = elim (Result-cases (get_adapter g.adapters (some d.primary_provider))) [
    | inl (a, found) ↦ rw found ground (
      arith,
      found_fallback (some d.primary_provider) a d.primary_model w found,
      except-calls d (a.generate request d.primary_model w).0
          (a.generate request d.primary_model w).1,
    )
    | inr (e, missing) ↦ rw missing (ground arith)
  ]

  -- One `generate` calls providers at most twice, and at most once for a request that allows no
  -- fallback. `count` stands for any measure of the world that grows by one with each call of a
  -- registered provider and that the recorder of routes keeps.
  pub generate-calls : (w : W) → count (generate g request w).1 ≤ most_calls request + count w
  unfolding generate route
  generate-calls w = grind (arith, keeps, serve-calls)

-- An answer, or a provider's error that a second try may mend.
abbrev pub Mends : Result GatewayError ModelResponse → Type 0
Mends (ok x) = Unit
Mends (raised (provider_error e)) = e.retryable ≡ true
Mends (raised e) = ⊥

module _ {W : Type 0} (g : AiGateway W) (request : ModelRequest) (d : RouteDecision)
    (selected : select_route request g.config g.adapters ≡ ok d)
    (mends : (a : ProviderAdapter W) (w : W)
      → lookup d.primary_provider g.adapters ≡ some a
      → Mends (a.generate request d.primary_model w).0)
    (answers : (p : ProviderName) (a : ProviderAdapter W) (m : String) (w : W)
      → d.fallback_provider ≡ some p
      → lookup p g.adapters ≡ some a
      → Answers (a.generate request m w).0)
    (records : (w : W) → Answers (recorded g.route_decision_recorder d w).0) where
  fits : RouteFits request g.config g.adapters d
  fits = select_route-Fits request g.config g.adapters d selected

  usable_found :
      (p : ProviderName)
      → is_usable p g.adapters ≡ true
      → (a : ProviderAdapter W) × (lookup p g.adapters ≡ some a)
  usable_found p h = elim (Option-cases (lookup p g.adapters)) [
    | inl missing ↦ absurd (ground arith)
    | inr found ↦ found
  ]

  second_lem :
      (o : Option ProviderName) (m : Option String)
      → d.fallback_provider ≡ o
      → FallbackFits request g.config g.adapters d.primary_provider o m
      → is_some o ≡ true
      → (e : ProviderError) (w : W) → Answers (fall_back g request d e w).0
  unfolding fall_back get_adapter
  second_lem none m at f h e w = ground arith
  second_lem (some p) none at f h e w = absurd f
  second_lem (some p) (some m) at f h e w =
      let (a, found) = usable_found p f.0.1.1.1.1 in
      ground (arith, found, answers p a (model_or_empty d.fallback_model) w at found)

  allowed_lem :
      (o : Option ProviderName) (m : Option String)
      → FallbackFits request g.config g.adapters d.primary_provider o m
      → is_some o ≡ true
      → (request.allow_fallback ≡ true) × (is_some m ≡ true)
  allowed_lem none m f h = ground arith
  allowed_lem (some p) none f h = absurd f
  allowed_lem (some p) (some m) f h = (f.0.1.0, refl)

  should_lem :
      (e : ProviderError)
      → is_some d.fallback_provider ≡ true
      → e.retryable ≡ true
      → should_fallback request d e ≡ true
  unfolding should_fallback
  should_lem e h k =
      let (_, (_, (_, (allowed, f)))) = fits in
      ground (arith, allowed, allowed_lem d.fallback_provider d.fallback_model f h)

  first_lem :
      (r : Result GatewayError ModelResponse) (w : W)
      → is_some d.fallback_provider ≡ true
      → Mends r
      → Answers (except_provider_error g request d r w).0
  unfolding except_provider_error should_fallback
  first_lem (ok x) w h k = tt
  first_lem (raised (provider_error e)) w h k =
      let (_, (_, (_, (_, f)))) = fits in
      rw (should_lem e h k) (second_lem d.fallback_provider d.fallback_model refl f h e w)
  first_lem (raised (key_error e)) w h k = k
  first_lem (raised (other e)) w h k = k

  -- A request that has a fallback is answered, where every failure of the first provider is a
  -- retryable error of it, the second provider does not fail and the recorder of routes does not
  -- either.
  pub generate-Answers :
      is_some d.fallback_provider ≡ true → (w : W) → Answers (generate g request w).0
  unfolding generate route serve get_adapter
  generate-Answers h w =
      let (a, found) = usable_found d.primary_provider fits.1.0 in
      let served : (v : W) → Answers (try_primary g request d a v).0 = λ v.
        first_lem (a.generate request d.primary_model v).0 (a.generate request d.primary_model v).1
          h (mends a v found) in
      grind (arith, selected, found, records, served)
