-- ===== src/DiskRead/Requests.antt =====
-- disk.go: the loop of `ReadExtentInto` over the holes, which clears what is empty and gathers the requests
-- for the segments.
use lsvd.Base.{Bool, true, false, ◌&&◌, List, [], ◌∷◌, ◌++◌, some, none, ◌==◌, if◌then◌else◌}
use lsvd.Base.Outcome.{Outcome, ok, ◌>>=◌}
use lsvd.Extent.{Extent}
use lsvd.Location.{ExtentHeader, PartialExtent, Flags, uncompressed, compressed, empty, flags}
use lsvd.Compact.{CompactPe}
use lsvd.TreeMap.{TreeMap}
use lsvd.ExtentMap.{ExtentMap}
use lsvd.ExtentMap.Resolve.{resolve}
use lsvd.RangeData.{RangeData, sub_range, clear_view}
use lsvd.Builder.Fill.{ReadError}

-- Clears the part of a range that it shares with an extent, if there is one.
unfoldable pub clear_part : RangeData → Extent → Outcome ReadError RangeData
clear_part dest e = elim (sub_range dest e) [ none ↦ ok dest | some v ↦ clear_view dest v ]

pub record ReadRequest : Type 0 where
  pub pe : PartialExtent
  pub extents : List Extent

abbrev pub same_extent : Extent → Extent → Bool
same_extent a b = (a.lba == b.lba) && (a.blocks == b.blocks)

abbrev pub same_header : ExtentHeader → ExtentHeader → Bool
same_header a b =
    same_extent a.extent b.extent
    && (a.size == b.size)
    && (a.offset == b.offset)
    && (a.raw_size == b.raw_size)

-- `last.pe == pe`
abbrev pub same_pe : PartialExtent → PartialExtent → Bool
same_pe a b =
    same_extent a.live b.live
    && same_header a.location.header b.location.header
    && (a.location.segment == b.location.segment)
    && (a.location.disk == b.location.disk)

-- The requests so far, the last one first.
unfoldable pub add_request : PartialExtent → Extent → List ReadRequest → List ReadRequest
add_request pe h [] = record { pe = pe; extents = h ∷ [] } ∷ []
add_request pe h (r ∷ reqs) =
    if same_pe r.pe pe
    then record r { extents = r.extents ++ h ∷ [] } ∷ reqs
    else record { pe = pe; extents = h ∷ [] } ∷ r ∷ reqs

-- The loop over the partial extents of a hole.
unfoldable pub gather_parts :
    Extent
    → List PartialExtent
    → RangeData
    → List ReadRequest
    → Outcome ReadError (RangeData × List ReadRequest)
unfolding clear_part add_request
gather_parts h [] dest reqs = ok (dest, reqs)
gather_parts h (pe ∷ pes) dest reqs = elim (pe.location.header.size == 0) [
  | true ↦ clear_part dest pe.live >>= λ dest'. gather_parts h pes dest' reqs
  | false ↦ gather_parts h pes dest (add_request pe h reqs)
]

-- What the loop over the holes comes to: the fast path, or requests.
pub data Plan : Type 0 where
  direct : PartialExtent → RangeData → Plan
  requests : RangeData → List ReadRequest → Plan

is_uncompressed : Flags → Bool
is_uncompressed uncompressed = true
is_uncompressed compressed = false
is_uncompressed empty = false

abbrev pub only_hole : List Extent → Extent → Bool
only_hole [] rng = false
only_hole (h ∷ []) rng = same_extent h rng
only_hole (h ∷ _ ∷ _) rng = false

only_part : List PartialExtent → Bool
only_part [] = true
only_part (pe ∷ pes) = false

-- The condition of the fast path: a single hole, the whole range, with a single part, not compressed.
unfoldable pub fast_path : List Extent → Extent → PartialExtent → List PartialExtent → Bool
unfolding only_part is_uncompressed flags
fast_path remaining rng pe more =
    only_hole remaining rng && only_part more && is_uncompressed (flags pe.location.header)

module _ (T : TreeMap CompactPe) where
  open T use {Map}

  unfoldable pub gather_holes :
      ExtentMap Map
      → List Extent
      → List Extent
      → RangeData
      → List ReadRequest
      → Outcome ReadError Plan
  unfolding clear_part gather_parts fast_path
  gather_holes em remaining [] dest reqs = ok (requests dest reqs)
  gather_holes em remaining (h ∷ holes) dest reqs = elim (resolve T em h []) [
    | [] ↦ clear_part dest h >>= λ dest'. gather_holes em remaining holes dest' reqs
    | pe ∷ pes ↦ elim (fast_path remaining dest.extent pe pes) [
      | true ↦ ok (direct pe dest)
      | false ↦ gather_parts h (pe ∷ pes) dest reqs >>= λ g. gather_holes em remaining holes g.0 g.1
    ]
  ]
