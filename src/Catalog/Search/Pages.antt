-- ===== src/Catalog/Search/Pages.antt =====
-- The generator of results: `Search.__iter__`, over the answers of the service.
use Prim.Native.String.{count}
use mathlib.Core.Option
use mathlib.Core.Path.{subst}
use descarteslabs_python.Prelude.{
  ℕ, zero, suc, ◌≤◌, String, ◌≡◌, ◌↔◌, refl, sym, ap, ◌∙◌, Option, none, some, List, [], ◌∷◌, ◌++◌,
  map, arith,
}
use descarteslabs_python.Python.Result.{Result, ok, bind, bind-ok, ok-injective}
use descarteslabs_python.Python.Dict.{Dict}
use descarteslabs_python.Filtering.Serialized.{Error}
use descarteslabs_python.Catalog.Search.{Param, Search, to_request}

-- The answer to a request: `response["data"]` and `response["links"].get("next")`.
pub record Page (D : Type 0) : Type 0 where
  pub docs : List D
  pub next_link : Option String

-- `s[n:]`, of a text
unfoldable pub drop_text : ℕ → String → String
drop_text zero s = s
drop_text (suc n) String.[] = String.[]
drop_text (suc n) (String.◌∷◌ c s) = drop_text n s

-- The service answers a `put` of the parameters to an address, and `build` makes an object out of a
-- document and the answer that it came in.
module _ {V D O : Type 0} (base_url : String) (put : String → Dict (Param V) → Page D)
    (build : Page D → D → O) where
  unfoldable pub next_url : Option String → Option String
  unfolding drop_text
  next_url none = none
  next_url (some link) = some (drop_text (count base_url) link)

  -- The loop; `none` means that the fuel ran out, one unit for each request.
  unfoldable pub loop : ℕ → Option String → Dict (Param V) → Option (List O)
  unfolding next_url
  loop zero url params = none
  loop (suc fuel) none params = some []
  loop (suc fuel) (some url) params =
      let more = loop fuel (next_url (put url params).next_link) params in
      elim (put url params).docs [
        | [] ↦ some []
        | d ∷ ds ↦ Option.map (λ rest. map (build (put url params)) (d ∷ ds) ++ rest) more
      ]

  unfoldable pub iterate : ℕ → Search V → Result Error (Option (List O))
  unfolding loop to_request
  iterate fuel s = bind (to_request s) λ (url, params). ok (loop fuel (some url) params)

  -- The results behind an address: none without one or on an empty page, else those of the page and
  -- then those behind its link.
  pub data Results (params : Dict (Param V)) : Option String → List O → Type 0 where
    no_link : Results params none []
    empty_page : {url : String} → (put url params).docs ≡ [] → Results params (some url) []
    page :
        {url : String} {d : D} {ds : List D} {rest : List O}
        → (put url params).docs ≡ d ∷ ds
        → Results params (next_url (put url params).next_link) rest
        → Results params (some url) (map (build (put url params)) (d ∷ ds) ++ rest)

module _ {V D O : Type 0} (base_url : String) (put : String → Dict (Param V) → Page D)
    (build : Page D → D → O) (params : Dict (Param V)) where
  abbrev ResultsAt : Option String → List O → Type 0
  ResultsAt = Results base_url put build params

  abbrev next_of : String → Option String
  next_of url = next_url base_url put build (put url params).next_link

  -- The results of a page, and then those of the rest of the loop.
  abbrev page_results : String → Option (List O) → List D → Option (List O)
  page_results url more [] = some []
  page_results url more (d ∷ ds) =
      Option.map (λ rest. map (build (put url params)) (d ∷ ds) ++ rest) more

  loop-page :
      (fuel : ℕ) (url : String)
      → loop base_url put build (suc fuel) (some url) params
        ≡ page_results url (loop base_url put build fuel (next_of url) params) (put url params).docs
  unfolding loop
  loop-page fuel url = ground arith

  loop-none : (fuel : ℕ) → 1 ≤ fuel → loop base_url put build fuel none params ≡ some []
  unfolding loop
  loop-none zero le = absurd (omega arith)
  loop-none (suc fuel) le = refl

  loop-some :
      (fuel n : ℕ) (url : String) (ds : List D) (os : Option (List O))
      → suc n ≤ fuel
      → (put url params).docs ≡ ds
      → ((f : ℕ)
          → n ≤ f
          → page_results url (loop base_url put build f (next_of url) params) ds ≡ os)
      → loop base_url put build fuel (some url) params ≡ os
  loop-some zero n url ds os le e h = absurd (omega arith)
  loop-some (suc fuel) n url ds os le e h =
      loop-page fuel url
      ∙ ap (page_results url (loop base_url put build fuel (next_of url) params)) e
      ∙ h fuel (omega arith)

  -- Enough fuel yields every result, in the order of the pages.
  loop_of_Results :
      {u : Option String} {os : List O}
      → ResultsAt u os
      → (n : ℕ) × ((fuel : ℕ) → n ≤ fuel → loop base_url put build fuel u params ≡ some os)
  loop_of_Results no_link = (1, loop-none)
  loop_of_Results (empty_page {url} e) =
      (1, λ fuel le. loop-some fuel 0 url [] (some []) le e (λ f _. refl))
  loop_of_Results (page {url} {d} {ds} {rest} e r) =
      let (n, h) = loop_of_Results r in
      (
        suc n,
        λ fuel le.
            loop-some fuel n url (d ∷ ds) (some (map (build (put url params)) (d ∷ ds) ++ rest)) le
              e λ f le'. ap (λ more. page_results url more (d ∷ ds)) (h f le'),
      )

  Results-of_page :
      (url : String) (ds : List D) (more : Option (List O)) (os : List O)
      → (put url params).docs ≡ ds
      → ((rest : List O) → more ≡ some rest → ResultsAt (next_of url) rest)
      → page_results url more ds ≡ some os
      → ResultsAt (some url) os
  Results-of_page url [] more os e ih h =
      let same : [] ≡ os = ground arith in subst (ResultsAt (some url)) same (empty_page e)
  Results-of_page url (d ∷ ds) none os e ih h = cc
  Results-of_page url (d ∷ ds) (some rest) os e ih h =
      let same : map (build (put url params)) (d ∷ ds) ++ rest ≡ os = ground arith in
      subst (ResultsAt (some url)) same (page e (ih rest refl))

  Results-of_loop :
      (fuel : ℕ) (u : Option String) (os : List O)
      → loop base_url put build fuel u params ≡ some os
      → ResultsAt u os
  unfolding loop
  Results-of_loop zero u os e = cc
  Results-of_loop (suc fuel) none os e =
      let same : [] ≡ os = ground arith in subst (ResultsAt none) same no_link
  Results-of_loop (suc fuel) (some url) os e =
      Results-of_page url (put url params).docs (loop base_url put build fuel (next_of url) params)
        os refl (λ rest. Results-of_loop fuel (next_of url) rest) (sym (loop-page fuel url) ∙ e)

module _ {V D O : Type 0} (base_url : String) (put : String → Dict (Param V) → Page D)
    (build : Page D → D → O) (s : Search V) where
  -- Iterating over a search ends and yields the objects `os` exactly when its request can be made and
  -- these are the objects on the pages that follow one another from the search's own address, in
  -- their order, up to the first empty page or the first without a link.
  pub iterate_iff :
      (os : List O)
      → ((fuel : ℕ) × (iterate base_url put build fuel s ≡ ok (some os))) ↔ (
          (url : String) × (params : Dict (Param V)) × (to_request s ≡ ok (url, params))
          × Results base_url put build params (some url) os)
  unfolding iterate
  iterate_iff os = (
    λ (fuel, e).
        let ((url, params), (q, h)) = bind-ok (to_request s) _ e in
        (
          url,
          params,
          q,
          Results-of_loop base_url put build params fuel (some url) os (ok-injective h),
        ),
    λ (url, params, q, r).
        let (n, h) = loop_of_Results base_url put build params r in
        (n, rw q (ap ok (h n (omega arith)))),
  )
