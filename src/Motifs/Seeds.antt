-- ===== src/Motifs/Seeds.antt =====
-- `propagate_synthetic_review_seeds` of app/engine/motifs/deterministic.py: the addresses that are a
-- bounded number of verified spends behind a review seed. A seed's score is its decay to the power of
-- the distance, here a function of the distance into any scale.
pub mod Reach
pub mod Candidates
pub mod Best
pub mod Nearest
use trace_x.Common.{
  ℕ, zero, suc, ◌+◌, Bool, true, false, not, ◌&&◌, ◌||◌, Option, none, some, List, [], ◌∷◌, ◌++◌,
  map, ◌==◌, ltb, leb, if◌then◌else◌, select, length, exists_in,
}
use trace_x.Common.Sort.{sort_by}
use trace_x.Motifs.Model.{Outpoint, Output, Input, outpoint_of}
use trace_x.Motifs.Peeling.{Facts, spender}

-- A seed: an address is its number, without the prefix.
pub record Seed : Type 0 where
  pub id : ℕ
  pub address : ℕ
  pub synthetic : Bool

-- `output.get("address") or output.get("script_id")`
abbrev pub first_known : Option ℕ → Option ℕ → Option ℕ
first_known none b = b
first_known (some a) b = some a

abbrev pub address_of : Output → Option ℕ
address_of o = first_known o.address o.script_id

-- A hop of a path: the output spent, the transaction, and the output that it leads to.
pub record SeedHop : Type 0 where
  pub from_output : Outpoint
  pub txid : ℕ
  pub to_output : Outpoint

pub record Candidate : Type 0 where
  pub entity : ℕ
  pub seed_id : ℕ
  pub distance : ℕ
  pub hops : List SeedHop

abbrev pub direct : Seed → Candidate
direct seed = record { entity = seed.address; seed_id = seed.id; distance = 0; hops = [] }

abbrev pub is_at : (address : ℕ) → Option ℕ → Bool
is_at address none = false
is_at address (some a) = a == address

-- `outputs_by_address.get(address, [])`
abbrev pub outputs_at : Facts → (address : ℕ) → List Output
outputs_at f address = select (λ o. is_at address (address_of o)) f.outputs

abbrev pub Frontier : Type 0
Frontier = List (Output × Candidate)

abbrev pub step_to :
    (seed_id distance txid : ℕ) → Output → Candidate → (next : Output) → Option ℕ → Frontier
step_to seed_id distance txid current prior next none = []
step_to seed_id distance txid current prior next (some target) =
    (
      next,
      record {
        entity = target;
        seed_id = seed_id;
        distance = distance;
        hops =
            prior.hops
            ++ record {
              from_output = outpoint_of current;
              txid = txid;
              to_output = outpoint_of next;
            }
              ∷ [];
      },
    )
    ∷ []

-- The inner loop over `outputs_by_tx.get(txid, [])`.
unfoldable pub steps_to : (seed_id distance txid : ℕ) → Output → Candidate → List Output → Frontier
steps_to seed_id distance txid current prior [] = []
steps_to seed_id distance txid current prior (o ∷ os) =
    let rest = steps_to seed_id distance txid current prior os in
    if o.txid == txid
    then step_to seed_id distance txid current prior o (address_of o) ++ rest
    else rest

abbrev pub steps_by : Facts → (seed_id distance : ℕ) → Output → Candidate → Option Input → Frontier
steps_by f seed_id distance current prior none = []
steps_by f seed_id distance current prior (some i) =
    steps_to seed_id distance i.txid current prior f.outputs

-- `next_frontier`
unfoldable pub next_frontier : Facts → (seed_id distance : ℕ) → Frontier → Frontier
unfolding steps_to
next_frontier f seed_id distance [] = []
next_frontier f seed_id distance ((current, prior) ∷ rest) =
    steps_by f seed_id distance current prior (spender f (outpoint_of current))
    ++ next_frontier f seed_id distance rest

abbrev pub paths : Frontier → List Candidate
paths frontier = map (λ (e : Output × Candidate). e.1) frontier

-- `for distance in range(1, max_depth + 1)`, from the distance of the frontier.
unfoldable pub candidates_from :
    Facts → (seed_id : ℕ) → (left distance : ℕ) → Frontier → List Candidate
unfolding next_frontier
candidates_from f seed_id zero distance frontier = []
candidates_from f seed_id (suc left) distance frontier =
    let next = next_frontier f seed_id (suc distance) frontier in
    paths next ++ candidates_from f seed_id left (suc distance) next

-- The frontier that a seed starts with.
abbrev pub first_frontier : Facts → Seed → Frontier
first_frontier f seed = map (λ o. (o, direct seed)) (outputs_at f seed.address)

-- `candidates`, of one seed.
unfoldable pub candidates_of_seed : Facts → (max_depth : ℕ) → Seed → List Candidate
unfolding candidates_from select
candidates_of_seed f max_depth seed =
    direct seed ∷ candidates_from f seed.id max_depth 0 (first_frontier f seed)

-- `candidate["score"] > old["score"]`, or an equal score at a smaller distance.
abbrev pub improves : (score : ℕ → ℕ) → Candidate → Candidate → Bool
improves score c old =
    ltb (score old.distance) (score c.distance)
    || (score c.distance == score old.distance) && ltb c.distance old.distance

-- `best[entity]`, the entities in the order in which they came.
unfoldable pub put_best : (score : ℕ → ℕ) → Candidate → List Candidate → List Candidate
put_best score c [] = c ∷ []
put_best score c (old ∷ best) =
    if old.entity == c.entity
    then (if improves score c old then c else old) ∷ best
    else old ∷ put_best score c best

unfoldable pub put_all : (score : ℕ → ℕ) → List Candidate → List Candidate → List Candidate
unfolding put_best
put_all score [] best = best
put_all score (c ∷ cs) best = put_all score cs (put_best score c best)

-- The loop over the seeds.
unfoldable pub propagate :
    Facts → (max_depth : ℕ) → (score : ℕ → ℕ) → List Seed → List Candidate → List Candidate
unfolding candidates_of_seed put_all
propagate f max_depth score [] best = best
propagate f max_depth score (seed ∷ seeds) best =
    propagate f max_depth score seeds
      (if seed.synthetic then put_all score (candidates_of_seed f max_depth seed) best else best)

abbrev pub has_entity : (entity : ℕ) → Candidate → Bool
has_entity entity c = c.entity == entity

-- `support[entity]`: the ids of the seeds that have a candidate there, once each.
unfoldable pub support_of : Facts → (max_depth entity : ℕ) → List Seed → List ℕ
unfolding candidates_of_seed exists_in
support_of f max_depth entity [] = []
support_of f max_depth entity (seed ∷ seeds) =
    let rest = support_of f max_depth entity seeds in
    let reaches =
      seed.synthetic && exists_in (has_entity entity) (candidates_of_seed f max_depth seed) in
    if reaches && not (exists_in (λ id. id == seed.id) rest) then seed.id ∷ rest else rest

pub record Proximity : Type 0 where
  pub nearest : Candidate
  pub risk_seed_count : ℕ

abbrev pub entity_le : Candidate → Candidate → Bool
entity_le a b = leb a.entity b.entity

-- `propagate_synthetic_review_seeds`, for a decay in its range.
unfoldable pub propagate_synthetic_review_seeds :
    Facts → (max_depth : ℕ) → (score : ℕ → ℕ) → List Seed → List Proximity
unfolding propagate support_of sort_by
propagate_synthetic_review_seeds f max_depth score seeds =
    map
      (λ c. record {
        nearest = c;
        risk_seed_count = length (support_of f max_depth c.entity seeds);
      })
      (sort_by entity_le (propagate f max_depth score seeds []))
