-- ===== src/Motifs/Peeling/Cache.antt =====
-- The cache of hops changes nothing: the walks with it are the walks without.
use trace_x.Common.{
  ℕ, zero, suc, ◌≡◌, refl, sym, ◌∙◌, ap, inl, inr, true, Option, some, [], ◌∷◌, arith, Bool-cases,
  Option-cases, All,
}
use trace_x.Motifs.Model.{Outpoint, Output, same_outpoint, outpoint_of}
use trace_x.Motifs.Peeling.{
  Facts, Hop, peeling_hop, WalkStep, walk_from, HopCache, cached, next_hop, walk_cached,
}

-- Every entry holds the hop of its output.
abbrev pub IsHopCache : Facts → HopCache → Type 0
IsHopCache f cache = All (λ (e : Outpoint × Option Hop). e.1 ≡ peeling_hop f e.0) cache

same_outpoint-eq : (a b : Outpoint) → same_outpoint a b ≡ true → a ≡ b
same_outpoint-eq a b h = ground arith

cached-hop :
    (f : Facts) (o : Outpoint) (cache : HopCache) {h : Option Hop}
    → IsHopCache f cache
    → cached o cache ≡ some h
    → h ≡ peeling_hop f o
unfolding cached
cached-hop f o [] v e = absurd (cc)
cached-hop f o ((p, h) ∷ rest) v e = elim (Bool-cases (same_outpoint p o)) [
  | inl here ↦
      let is_h : h ≡ _ = cc (rw here at e) in
      sym is_h ∙ v.0 ∙ ap (peeling_hop f) (same_outpoint-eq p o here)
  | inr there ↦ cached-hop f o rest v.1 (rw there at e)
]

next_hop-eq :
    (f : Facts) (cache : HopCache) (o : Outpoint)
    → IsHopCache f cache
    → ((next_hop f cache o).0 ≡ peeling_hop f o) × IsHopCache f (next_hop f cache o).1
unfolding next_hop
next_hop-eq f cache o v = elim (Option-cases (cached o cache)) [
  | inl missing ↦ rw (missing, next_hop) (refl, (refl, v))
  | inr (h, hit) ↦ rw (hit, next_hop) (cached-hop f o cache v hit, v)
]

abbrev with_next : Outpoint → Hop → Option Output → WalkStep
with_next o h c = record { at = o; spending_txid = h.spending_txid; continuation = c }

-- A walk with a cache that holds hops is the walk without it, and the cache holds hops afterwards.
pub walk_cached-eq-walk_from :
    (f : Facts) (hops : ℕ) (cache : HopCache) (o : Outpoint)
    → IsHopCache f cache
    → ((walk_cached f hops cache o).0 ≡ walk_from f hops o)
      × IsHopCache f (walk_cached f hops cache o).1
unfolding walk_cached walk_from
walk_cached-eq-walk_from f zero cache o v = (refl, v)
walk_cached-eq-walk_from f (suc hops) cache o v =
    let (same, v') = next_hop-eq f cache o v in
    elim (Option-cases (peeling_hop f o)) [
      | inl no_hop ↦ rw (same ∙ no_hop, walk_cached) (rw (no_hop, walk_from) (refl, v'))
      | inr (h, is_hop) ↦ elim (Option-cases h.continuation) [
        | inl done ↦
            rw (same ∙ is_hop, walk_cached)
              (rw (is_hop, walk_from) (rw done (ap (λ c. with_next o h c ∷ []) done, v')))
        | inr (c, is_c) ↦
            let (ih, v'') =
              walk_cached-eq-walk_from f hops (next_hop f cache o).1 (outpoint_of c) v' in
            rw (same ∙ is_hop, walk_cached)
              (rw (is_hop, walk_from) (rw is_c (λ i. with_next o h (is_c i) ∷ ih i, v'')))
      ]
    ]
