-- ===== src/Elevation.antt =====
-- lib/terrain_elevation.cpp, include/aowis/map/terrain_elevation.h, lib/terrain_dataset.cpp and
-- lib/terrain_provider.cpp: the enumerations and the identifiers by which the HTTP API names them. An
-- `enum class` has its declared values only, so the `default` labels, which stand beside one of them
-- or after all, add no case.
pub mod Ids
mod Examples
use aowis_server_map.Prelude.{
  ℕ, zero, suc, ◌+◌, ◌-◌, ◌*◌, ◌/◌, ◌%◌, ◌^◌, ◌≤◌, ◌<◌, ◌≡◌, ◌≢◌, ◌↔◌, refl, sym, ap, subst, ◌∙◌,
  Bool, true, false, not, ◌||◌, ◌&&◌, Option, none, some, arith, List, [], ◌∷◌, ◌++◌, length, Bytes,
  Text, drop, take, replicate, map, All, All-append, is_empty, codes, eqb, eqb→eq, eqb_self,
  append_assoc, append-nil, get_or, min, max, if◌then◌else◌, ltb, leb, ◌==◌, ==→eq, ==-self, ◌⊎◌,
  inl, inr, Bool-cases, Option-cases, length-append, length-take, length-drop, take-append,
  drop-append, take-all, tests, &&-true, leb→le, ltb→lt, le→leb,
}
use aowis_server_map.Platform.Strings.{Strings}

pub data TerrainVerticalDatum : Type 0 where
  unknown wgs84_ellipsoid egm96 egm2008 local : TerrainVerticalDatum

pub data TerrainVerticalReference : Type 0 where
  unknown ellipsoidal orthometric local : TerrainVerticalReference

pub data TerrainDataOrigin : Type 0 where
  unknown cache remote offline_package local_dataset : TerrainDataOrigin

pub data TerrainSurfaceModel : Type 0 where
  unknown dsm dtm : TerrainSurfaceModel

unfoldable pub vertical_datum_id : TerrainVerticalDatum → Text
vertical_datum_id TerrainVerticalDatum.wgs84_ellipsoid = codes "wgs84-ellipsoid"
vertical_datum_id TerrainVerticalDatum.egm96 = codes "egm96"
vertical_datum_id TerrainVerticalDatum.egm2008 = codes "egm2008"
vertical_datum_id TerrainVerticalDatum.local = codes "local"
vertical_datum_id TerrainVerticalDatum.unknown = codes "unknown"

unfoldable pub datum_of_normalized : Text → Option TerrainVerticalDatum
datum_of_normalized normalized =
    if eqb normalized (codes "unknown")
    then some TerrainVerticalDatum.unknown
    else if eqb normalized (codes "wgs84-ellipsoid")
    then some TerrainVerticalDatum.wgs84_ellipsoid
    else if eqb normalized (codes "egm96")
    then some TerrainVerticalDatum.egm96
    else if eqb normalized (codes "egm2008")
    then some TerrainVerticalDatum.egm2008
    else if eqb normalized (codes "local")
    then some TerrainVerticalDatum.local
    else none

unfoldable pub vertical_datum_display_name : TerrainVerticalDatum → Text
vertical_datum_display_name TerrainVerticalDatum.wgs84_ellipsoid = codes "WGS 84 ellipsoidal height"
vertical_datum_display_name TerrainVerticalDatum.egm96 = codes "EGM96 geoid height"
vertical_datum_display_name TerrainVerticalDatum.egm2008 = codes "EGM2008 geoid height"
vertical_datum_display_name TerrainVerticalDatum.local = codes "Local/project vertical datum"
vertical_datum_display_name TerrainVerticalDatum.unknown = codes "Unknown vertical datum"

unfoldable pub vertical_datum_authority_code : TerrainVerticalDatum → Text
vertical_datum_authority_code TerrainVerticalDatum.wgs84_ellipsoid = codes "EPSG:4979"
vertical_datum_authority_code TerrainVerticalDatum.egm96 = codes "EPSG:5773"
vertical_datum_authority_code TerrainVerticalDatum.egm2008 = codes "EPSG:3855"
vertical_datum_authority_code TerrainVerticalDatum.local = []
vertical_datum_authority_code TerrainVerticalDatum.unknown = []

unfoldable pub vertical_reference : TerrainVerticalDatum → TerrainVerticalReference
vertical_reference TerrainVerticalDatum.wgs84_ellipsoid = TerrainVerticalReference.ellipsoidal
vertical_reference TerrainVerticalDatum.egm96 = TerrainVerticalReference.orthometric
vertical_reference TerrainVerticalDatum.egm2008 = TerrainVerticalReference.orthometric
vertical_reference TerrainVerticalDatum.local = TerrainVerticalReference.local
vertical_reference TerrainVerticalDatum.unknown = TerrainVerticalReference.unknown

unfoldable pub vertical_reference_id : TerrainVerticalReference → Text
vertical_reference_id TerrainVerticalReference.ellipsoidal = codes "ellipsoidal"
vertical_reference_id TerrainVerticalReference.orthometric = codes "orthometric"
vertical_reference_id TerrainVerticalReference.local = codes "local"
vertical_reference_id TerrainVerticalReference.unknown = codes "unknown"

unfoldable pub is_valid_vertical_datum : TerrainVerticalDatum → Bool
is_valid_vertical_datum datum = true

abbrev is_unknown : TerrainVerticalDatum → Bool
is_unknown TerrainVerticalDatum.unknown = true
is_unknown _ = false

unfoldable pub is_explicit_vertical_datum : TerrainVerticalDatum → Bool
unfolding is_valid_vertical_datum
is_explicit_vertical_datum datum = is_valid_vertical_datum datum && not (is_unknown datum)

unfoldable pub is_requestable_vertical_datum : TerrainVerticalDatum → Bool
is_requestable_vertical_datum TerrainVerticalDatum.wgs84_ellipsoid = true
is_requestable_vertical_datum TerrainVerticalDatum.egm96 = true
is_requestable_vertical_datum TerrainVerticalDatum.egm2008 = true
is_requestable_vertical_datum _ = false

unfoldable pub data_origin_id : TerrainDataOrigin → Text
data_origin_id TerrainDataOrigin.cache = codes "cache"
data_origin_id TerrainDataOrigin.remote = codes "remote"
data_origin_id TerrainDataOrigin.offline_package = codes "offline-package"
data_origin_id TerrainDataOrigin.local_dataset = codes "local-dataset"
data_origin_id TerrainDataOrigin.unknown = codes "unknown"

unfoldable pub origin_of_normalized : Text → Option TerrainDataOrigin
origin_of_normalized normalized =
    if eqb normalized (codes "unknown")
    then some TerrainDataOrigin.unknown
    else if eqb normalized (codes "cache")
    then some TerrainDataOrigin.cache
    else if eqb normalized (codes "remote")
    then some TerrainDataOrigin.remote
    else if eqb normalized (codes "offline-package")
    then some TerrainDataOrigin.offline_package
    else if eqb normalized (codes "local-dataset")
    then some TerrainDataOrigin.local_dataset
    else none

unfoldable pub surface_model_id : TerrainSurfaceModel → Text
surface_model_id TerrainSurfaceModel.dsm = codes "dsm"
surface_model_id TerrainSurfaceModel.dtm = codes "dtm"
surface_model_id TerrainSurfaceModel.unknown = codes "unknown"

unfoldable pub surface_model_from_id : Text → Option TerrainSurfaceModel
surface_model_from_id id =
    if eqb id (codes "unknown")
    then some TerrainSurfaceModel.unknown
    else if eqb id (codes "dsm")
    then some TerrainSurfaceModel.dsm
    else if eqb id (codes "dtm")
    then some TerrainSurfaceModel.dtm
    else none

module _ (qt : Strings) where
  open qt use {trimmed, to_lower}

  unfoldable pub vertical_datum_from_id : Text → Option TerrainVerticalDatum
  unfolding datum_of_normalized
  vertical_datum_from_id id = datum_of_normalized (to_lower (trimmed id))

  unfoldable pub data_origin_from_id : Text → Option TerrainDataOrigin
  unfolding origin_of_normalized
  data_origin_from_id id = origin_of_normalized (to_lower (trimmed id))
