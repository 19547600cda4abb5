-- ===== src/Motifs/Coinjoin/Buckets.antt =====
-- The groups of equal outputs: within the tolerance of their first, and apart from each other.
use trace_x.Common.{ℕ, ◌+◌, ◌≤◌, ◌<◌, List, [], ◌∷◌, length, All}
use trace_x.Motifs.Model.{Output}
use trace_x.Motifs.Coinjoin.{Bucket, members}

-- A value of the group is at least its first and at most the tolerance above it.
abbrev pub IsNear : (tolerance : ℕ) → Bucket → Output → Type 0
IsNear tolerance b o =
    (b.first.amount_sats ≤ o.amount_sats) × (o.amount_sats ≤ b.first.amount_sats + tolerance)

-- The groups hold near values, and each begins above what fits the ones before it.
abbrev pub AreBuckets : (tolerance : ℕ) → List Bucket → Type 0
AreBuckets tolerance [] = Unit
AreBuckets tolerance (b ∷ bs) =
    All (IsNear tolerance b) b.rest
    × All (λ (c : Bucket). b.first.amount_sats + tolerance < c.first.amount_sats) bs
    × AreBuckets tolerance bs

unfoldable pub size : List Bucket → ℕ
size [] = 0
size (b ∷ bs) = length (members b) + size bs
