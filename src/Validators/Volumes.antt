-- ===== src/Validators/Volumes.antt =====
-- internal/validators/volumes.go
use ocular.Prelude.{
  String, Bool, true, false, ◌&&◌, none, some, List, [], ◌∷◌, ◌=ˢ◌, map, if◌then◌else◌,
}
use ocular.Prelude.Dict.{Dict, lookup, insert}
use ocular.Kube.{Volume, VolumeSource}

-- reflect.DeepEqual on volumes
abbrev same_source : VolumeSource → VolumeSource → Bool
same_source VolumeSource.empty_dir VolumeSource.empty_dir = true
same_source (VolumeSource.downward_api p f) (VolumeSource.downward_api q g) = p =ˢ q && f =ˢ g
same_source (VolumeSource.source s) (VolumeSource.source t) = s =ˢ t
same_source _ _ = false

abbrev pub deep_equal : Volume → Volume → Bool
deep_equal v w = v.name =ˢ w.name && same_source v.source w.source

-- the volumes, or the name of the one that ErrVolumeCollision is about
pub data Deduplicated : Type 0 where
  volumes : List Volume → Deduplicated
  collision : String → Deduplicated

-- the loop, with the map of the volumes seen
unfoldable pub deduplicate : Bool → List Volume → Dict Volume → Deduplicated
deduplicate merge [] seen = volumes (map (λ (e : String × Volume). e.1) seen)
deduplicate merge (vol ∷ vols) seen = elim (lookup vol.name seen) [
  | none ↦ deduplicate merge vols (insert vol.name vol seen)
  | some old ↦
      let rest = deduplicate merge vols seen in
      if merge && deep_equal old vol then rest else collision vol.name
]

unfoldable pub detect_volume_collision : List Volume → Bool → Deduplicated
unfolding deduplicate
detect_volume_collision vols merge_duplicates = deduplicate merge_duplicates vols []
