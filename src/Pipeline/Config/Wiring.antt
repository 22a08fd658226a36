-- ===== src/Pipeline/Config/Wiring.antt =====
-- What `PipelineManager.__init__` of ceilometer/pipeline.py has built when it returns.
use stx_ceilometer.Prelude.{
  String, ◌≡◌, refl, sym, ◌∙◌, ap, true, Option, List, [], ◌∷◌, ◌++◌, map, append-nil, append_assoc,
  arith, Result, ok, >>=-eq-ok, contains, IsUnique, IsUnique-snoc, All, All-append, string_eq,
  subst, Bool-cases, inl, inr, Exception, require, pipeline_exception, some,
}
use stx_ceilometer.Pipeline.Source.{PipelineSource, check_sinks}
use stx_ceilometer.Pipeline.Source.Sinks.{check_sinks_sound}
use stx_ceilometer.Pipeline.Sink.{Sink}
use stx_ceilometer.Pipeline.Config.{
  PipelineType, Pipeline, PipelineManager, Config, make_pipeline, make_sources, make_sinks,
  link_targets, link_sources, pipeline_manager, or_empty, sources_and_sinks_required,
}

abbrev missing : Exception
missing = pipeline_exception sources_and_sinks_required

-- A pipeline for each source and each of its sinks, in the order of the file.
abbrev pub all_links : PipelineType → List PipelineSource → List Pipeline
all_links kind [] = []
all_links kind (s ∷ ss) = map (make_pipeline kind s) s.sinks ++ all_links kind ss

abbrev pub name_of : Pipeline → String
name_of p = p.name

map-append : {A B : Type 0} (f : A → B) (xs ys : List A) → map f (xs ++ ys) ≡ map f xs ++ map f ys
map-append f [] ys = refl
map-append f (x ∷ xs) ys = ap (λ l. f x ∷ l) (map-append f xs ys)

link_targets-eq :
    (kind : PipelineType) (source : PipelineSource) (targets names : List String)
    (pipes : List Pipeline) (names' : List String) (pipes' : List Pipeline)
    → link_targets kind source targets names pipes ≡ ok (names', pipes')
    → IsUnique names
    → names ≡ map name_of pipes
    → (pipes' ≡ pipes ++ map (make_pipeline kind source) targets)
      × IsUnique names'
      × (names' ≡ map name_of pipes')
unfolding link_targets
link_targets-eq kind source [] names pipes names' pipes' h u e =
    let same : names ≡ names' = ground arith in
    let kept : pipes ≡ pipes' = ground arith in
    (sym kept ∙ sym (append-nil pipes), subst IsUnique same u, sym same ∙ e ∙ ap (map name_of) kept)
link_targets-eq kind source (t ∷ ts) names pipes names' pipes' h u e =
    let pipe = make_pipeline kind source t in
    elim (Bool-cases (contains names pipe.name)) [
      | inl taken ↦ absurd (ground arith)
      | inr fresh ↦
          let rest : link_targets kind source ts (names ++ pipe.name ∷ []) (pipes ++ pipe ∷ [])
              ≡ ok (names', pipes') =
            ground arith in
          let (all_made, unique, named) =
            link_targets-eq kind source ts (names ++ pipe.name ∷ []) (pipes ++ pipe ∷ []) names'
              pipes' rest (IsUnique-snoc names pipe.name u fresh)
              (ap (λ l. l ++ pipe.name ∷ []) e ∙ sym (map-append name_of pipes (pipe ∷ []))) in
          (
            all_made ∙ append_assoc pipes (pipe ∷ []) (map (make_pipeline kind source) ts),
            unique,
            named,
          )
    ]

link_sources-eq :
    (kind : PipelineType) (known : List String) (sources : List PipelineSource)
    (names : List String) (pipes : List Pipeline) (names' : List String) (pipes' : List Pipeline)
    → link_sources kind known sources names pipes ≡ ok (names', pipes')
    → IsUnique names
    → names ≡ map name_of pipes
    → (pipes' ≡ pipes ++ all_links kind sources) × IsUnique (map name_of pipes')
unfolding link_sources
link_sources-eq kind known [] names pipes names' pipes' h u e =
    let kept : pipes ≡ pipes' = ground arith in
    (sym kept ∙ sym (append-nil pipes), subst IsUnique (e ∙ ap (map name_of) kept) u)
link_sources-eq kind known (s ∷ ss) names pipes names' pipes' h u e =
    let (_, _, later) = >>=-eq-ok (check_sinks s known) _ h in
    let ((names_s, pipes_s), linked, linked_rest) =
      >>=-eq-ok (link_targets kind s s.sinks names pipes) _ later in
    let (made, unique, named) =
      link_targets-eq kind s s.sinks names pipes names_s pipes_s linked u e in
    let (all_made, all_unique) =
      link_sources-eq kind known ss names_s pipes_s names' pipes' linked_rest unique named in
    (
      all_made
          ∙ ap (λ l. l ++ all_links kind ss) made
          ∙ append_assoc pipes (map (make_pipeline kind s) s.sinks) (all_links kind ss),
      all_unique,
    )

links-known :
    (kind : PipelineType) (known : List String) (source : PipelineSource) (targets : List String)
    → All (λ t. contains known t ≡ true) targets
    → All (λ p. contains known p.sink ≡ true) (map (make_pipeline kind source) targets)
unfolding make_pipeline
links-known kind known source [] h = tt
links-known kind known source (t ∷ ts) h = (h.0, links-known kind known source ts h.1)

link_sources-known :
    (kind : PipelineType) (known : List String) (sources : List PipelineSource)
    (names : List String) (pipes : List Pipeline) (linked : List String × List Pipeline)
    → link_sources kind known sources names pipes ≡ ok linked
    → All (λ p. contains known p.sink ≡ true) (all_links kind sources)
unfolding link_sources
link_sources-known kind known [] names pipes linked h = tt
link_sources-known kind known (s ∷ ss) names pipes linked h =
    let (_, checked, later) = >>=-eq-ok (check_sinks s known) _ h in
    let ((names', pipes'), _, linked_rest) =
      >>=-eq-ok (link_targets kind s s.sinks names pipes) _ later in
    All-append (λ p. contains known p.sink ≡ true) (map (make_pipeline kind s) s.sinks)
      (all_links kind ss) (links-known kind known s s.sinks (check_sinks_sound s known checked))
      (link_sources-known kind known ss names' pipes' linked linked_rest)

module _ {P Q T : Type 0} (load : String → Result P) (plugin : String → Option (Q → Result T))
    (no_parameters : Q) where
  -- A pipeline manager that was constructed from a file has, in the order of the file, one pipeline for
  -- each source that it made and each sink that the source names; no two of the pipelines have the
  -- same name, and each one's sink is in the manager's dict of sinks.
  pub pipeline_manager-wired :
      (kind : PipelineType) (cfg : Config Q) (m : PipelineManager P T)
      → pipeline_manager load plugin no_parameters kind cfg ≡ ok m
      → (sources : List PipelineSource) × (make_sources kind [] (or_empty cfg.sources) ≡ ok sources)
        × (m.pipelines ≡ all_links kind sources)
        × IsUnique (map name_of m.pipelines)
        × All (λ p. contains (map (λ entry. entry.0) m.sinks) p.sink ≡ true) m.pipelines
  unfolding pipeline_manager
  pipeline_manager-wired kind cfg m h =
      let (source_cfgs, given, h₁) = >>=-eq-ok (require missing cfg.sources) _ h in
      let (sink_cfgs, _, h₂) = >>=-eq-ok (require missing cfg.sinks) _ h₁ in
      let (sources, made, h₃) = >>=-eq-ok (make_sources kind [] source_cfgs) _ h₂ in
      let ((sinks, pubs), _, h₄) =
        >>=-eq-ok (make_sinks load plugin no_parameters [] [] (record { loaded = [] }) sink_cfgs) _
          h₃ in
      let known = map (λ (entry : String × Sink T). entry.0) sinks in
      let ((names, pipes), linked, h₅) = >>=-eq-ok (link_sources kind known sources [] []) _ h₄ in
      let (all_made, unique) =
        link_sources-eq kind known sources [] [] names pipes linked tt refl in
      let wired = link_sources-known kind known sources [] [] (names, pipes) linked in
      let built : m ≡ record { pipelines = pipes; sinks = sinks; publishers = pubs } =
        ground arith in
      let found : cfg.sources ≡ some source_cfgs = ground arith in
      (sources, simp found made, rw built all_made, rw built unique, rw built (rw all_made wired))
