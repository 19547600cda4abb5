-- ===== src/Grouping/Tests.antt =====
-- Four findings of a snapshot, grouped, and each theorem about grouping at them.
use trace_x.Common.{ℕ, ◌≡◌, ◌≢◌, refl, true, false, List, [], ◌∷◌, map, arith, ◌==◌, All}
use trace_x.Grouping.Model.{Texts, EntityRef, Node, Edge, Finding, Member, Generation, no_rows}
use trace_x.Grouping.Observe.{observations, read_edges}
use trace_x.Grouping.Reference.{Inputs, Observed, observe, place, place_all}
use trace_x.Grouping.Indexed.{place_pages, empty_index}
use trace_x.Grouping.Paged.{AreApart, place_pages-eq-place_all}
use trace_x.Grouping.Materialize.{
  Database, Graph, RunIdOf, Outcome, ordered_findings, materialize, materialize_indexed,
}
use trace_x.Grouping.Published.{NamesApart, HaveDistinctIds, materialize_indexed-eq-materialize}
use trace_x.Grouping.Active.{IsSingleActive}
use trace_x.Grouping.Publication.{materialize-IsSingleActive, materialize-twice}
use trace_x.Grouping.Counted.{IsCounted, place_all-IsCounted}

-- Rule 7 is the peeling rule.
abbrev texts : Texts
texts = record {
  family_of = λ rule_id rule_version. rule_id;
  is_peeling = λ rule_id. rule_id == 7;
  group_id = λ run_id finding_id. finding_id;
  utxo_token = λ txid. txid;
  source_token = λ evidence_id locator digest. evidence_id;
  sha256 = λ token. token;
  ref_rank = λ ref. 0;
}

-- Output 0 of transaction 1 is spent by 2, output 0 of 2 by 3.
abbrev edges : List Edge
edges =
    record { edge_id = 1; from_node = Node.output 1 0; to_node = Node.transaction 2 }
    ∷ record { edge_id = 2; from_node = Node.output 2 0; to_node = Node.transaction 3 }
    ∷ []

abbrev peel : ℕ → ℕ → List ℕ → Finding
peel id tx path = record {
  id = id;
  snapshot_id = 1;
  rule_id = 7;
  rule_version = 1;
  entity_ref = EntityRef.tx tx;
  window_start = 100;
  window_end = 200;
  raw_score = 5;
  edge_ids = path;
  source_refs = [];
}

-- The first two peels meet at transaction 2; the third is apart.
abbrev findings : List Finding
findings = peel 11 1 (1 ∷ []) ∷ peel 12 3 (2 ∷ []) ∷ peel 13 9 [] ∷ []

abbrev db : Database
db = record {
  snapshots = record { id = 1; case_id = 4 } ∷ [];
  findings = findings;
  participation = record { finding_id = 13; transaction_ref = 30 } ∷ [];
  runs = [];
}

abbrev graph : Graph
graph = record { case_id = 4; snapshot_id = 1; sha256 = 99; edges = edges }

abbrev run_id_of : RunIdOf
run_id_of = λ case_id snapshot_id graph_sha256 rows refs. 500

abbrev inputs : Inputs
inputs = record {
  texts = texts;
  run_id = 500;
  edges = edges;
  participation = λ finding_id. [];
  previous = λ finding_id. [];
}

program : Unit {0}
unfolding materialize materialize_indexed place_all place place_pages observations ordered_findings
program = tt

placed_ids :
    map (λ (m : Member). m.group_id) (place_all inputs findings no_rows).members ≡ 13 ∷ 11 ∷ 11 ∷ []
unfolding program
placed_ids = refl

after_request : Database
unfolding program
after_request = (materialize texts run_id_of graph 4 1 db).1

request : materialize texts run_id_of graph 4 1 db ≡ (Outcome.done 500 3 2 false, after_request)
unfolding program after_request
request = refl

foreign_case : materialize texts run_id_of graph 5 1 db ≡ (Outcome.refused, db)
unfolding program
foreign_case = refl

apart : AreApart inputs findings
apart = (
  ((λ e. absurd (omega arith)), ((λ e. absurd (omega arith)), tt)),
  (((λ e. absurd (omega arith)), tt), (tt, tt)),
)

names_apart : NamesApart texts
names_apart run_id a b e = e

distinct : HaveDistinctIds findings
distinct = (
  ((λ e. absurd (omega arith)), ((λ e. absurd (omega arith)), tt)),
  (((λ e. absurd (omega arith)), tt), (tt, tt)),
)

abbrev pages : List (List Finding)
pages = (peel 11 1 (1 ∷ []) ∷ peel 12 3 (2 ∷ []) ∷ []) ∷ (peel 13 9 [] ∷ []) ∷ []

place_pages-eq-place_all_example :
    (place_pages inputs pages empty_index).rows ≡ place_all inputs findings no_rows
place_pages-eq-place_all_example = place_pages-eq-place_all inputs pages apart

materialize_indexed-eq-materialize_example :
    materialize_indexed texts run_id_of graph 4 1 db ≡ materialize texts run_id_of graph 4 1 db
materialize_indexed-eq-materialize_example =
    materialize_indexed-eq-materialize texts run_id_of graph 4 1 db names_apart distinct

materialize-IsSingleActive_example :
    IsSingleActive (materialize texts run_id_of graph 4 1 db).1.runs
    × ((materialize texts run_id_of graph 4 1 db).0 ≢ Outcome.incomplete)
materialize-IsSingleActive_example = materialize-IsSingleActive texts run_id_of graph 4 1 db tt

materialize-twice_example :
    materialize texts run_id_of graph 4 1 after_request ≡ (Outcome.done 500 3 2 true, after_request)
materialize-twice_example = materialize-twice texts run_id_of graph 4 1 db after_request request

abbrev first : Generation
first = place_all inputs (peel 11 1 (1 ∷ []) ∷ []) no_rows

abbrev second : Observed
second = observe inputs (read_edges edges) (peel 12 3 (2 ∷ []))

place_all-IsCounted_example :
    All
      (IsCounted (place_all inputs findings no_rows).members)
      (place_all inputs findings no_rows).groups
place_all-IsCounted_example = place_all-IsCounted inputs findings apart
