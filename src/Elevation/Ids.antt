-- ===== src/Elevation/Ids.antt =====
-- lib/terrain_elevation.cpp and lib/terrain_dataset.cpp: an identifier is read as exactly the value
-- that has it.
use aowis_server_map.Prelude.{◌≡◌, ◌↔◌, refl, some, arith, Text, All, codes, eqb, eqb→eq}
use aowis_server_map.Platform.Strings.{Strings, IsPlain}
use aowis_server_map.Elevation.{
  TerrainVerticalDatum, TerrainDataOrigin, TerrainSurfaceModel, vertical_datum_id,
  datum_of_normalized, vertical_datum_from_id, data_origin_id, origin_of_normalized,
  data_origin_from_id, surface_model_id, surface_model_from_id,
}

datum_of_normalized_sound :
    (s : Text) (datum : TerrainVerticalDatum)
    → datum_of_normalized s ≡ some datum
    → s ≡ vertical_datum_id datum
unfolding datum_of_normalized vertical_datum_id
datum_of_normalized_sound s datum h = ground (
  arith,
  h,
  eqb→eq s (codes "unknown"),
  eqb→eq s (codes "wgs84-ellipsoid"),
  eqb→eq s (codes "egm96"),
  eqb→eq s (codes "egm2008"),
  eqb→eq s (codes "local"),
)

datum_of_normalized_complete :
    (datum : TerrainVerticalDatum) → datum_of_normalized (vertical_datum_id datum) ≡ some datum
unfolding datum_of_normalized vertical_datum_id eqb
datum_of_normalized_complete TerrainVerticalDatum.unknown = refl
datum_of_normalized_complete _ = refl

origin_of_normalized_sound :
    (s : Text) (origin : TerrainDataOrigin)
    → origin_of_normalized s ≡ some origin
    → s ≡ data_origin_id origin
unfolding origin_of_normalized data_origin_id
origin_of_normalized_sound s origin h = ground (
  arith,
  h,
  eqb→eq s (codes "unknown"),
  eqb→eq s (codes "cache"),
  eqb→eq s (codes "remote"),
  eqb→eq s (codes "offline-package"),
  eqb→eq s (codes "local-dataset"),
)

origin_of_normalized_complete :
    (origin : TerrainDataOrigin) → origin_of_normalized (data_origin_id origin) ≡ some origin
unfolding origin_of_normalized data_origin_id eqb
origin_of_normalized_complete TerrainDataOrigin.unknown = refl
origin_of_normalized_complete _ = refl

surface_model_from_id_sound :
    (s : Text) (model : TerrainSurfaceModel)
    → surface_model_from_id s ≡ some model
    → s ≡ surface_model_id model
unfolding surface_model_from_id surface_model_id
surface_model_from_id_sound s model h =
    ground (arith, h, eqb→eq s (codes "unknown"), eqb→eq s (codes "dsm"), eqb→eq s (codes "dtm"))

surface_model_from_id_complete :
    (model : TerrainSurfaceModel) → surface_model_from_id (surface_model_id model) ≡ some model
unfolding surface_model_from_id surface_model_id eqb
surface_model_from_id_complete TerrainSurfaceModel.unknown = refl
surface_model_from_id_complete _ = refl

-- A surface model is read from exactly its identifier.
pub surface_model_from_id_iff :
    (s : Text) (model : TerrainSurfaceModel)
    → (surface_model_from_id s ≡ some model) ↔ (s ≡ surface_model_id model)
surface_model_from_id_iff s model =
    (surface_model_from_id_sound s model, λ e. rw e (surface_model_from_id_complete model))

datum_id-IsPlain : (datum : TerrainVerticalDatum) → All IsPlain (vertical_datum_id datum)
unfolding vertical_datum_id
datum_id-IsPlain TerrainVerticalDatum.unknown = ground arith
datum_id-IsPlain _ = ground arith

origin_id-IsPlain : (origin : TerrainDataOrigin) → All IsPlain (data_origin_id origin)
unfolding data_origin_id
origin_id-IsPlain TerrainDataOrigin.unknown = ground arith
origin_id-IsPlain _ = ground arith

module _ (qt : Strings) where
  open qt use {trimmed, to_lower, trimmed_plain, to_lower_plain}

  plain-normal : (s : Text) → All IsPlain s → to_lower (trimmed s) ≡ s
  plain-normal s h = rw (trimmed_plain s h) (to_lower_plain s h)

  -- A vertical datum is read from exactly the texts whose trimmed lower-case form is its identifier,
  -- and so from the identifier itself.
  pub vertical_datum_from_id_iff :
      (s : Text) (datum : TerrainVerticalDatum)
      → ((vertical_datum_from_id qt s ≡ some datum)
          ↔ (to_lower (trimmed s) ≡ vertical_datum_id datum))
        × (vertical_datum_from_id qt (vertical_datum_id datum) ≡ some datum)
  unfolding vertical_datum_from_id
  vertical_datum_from_id_iff s datum = (
    (
      datum_of_normalized_sound (to_lower (trimmed s)) datum,
      λ e. rw e (datum_of_normalized_complete datum),
    ),
    rw (plain-normal (vertical_datum_id datum) (datum_id-IsPlain datum))
        (datum_of_normalized_complete datum),
  )

  -- The same of the origin of terrain data.
  pub data_origin_from_id_iff :
      (s : Text) (origin : TerrainDataOrigin)
      → ((data_origin_from_id qt s ≡ some origin) ↔ (to_lower (trimmed s) ≡ data_origin_id origin))
        × (data_origin_from_id qt (data_origin_id origin) ≡ some origin)
  unfolding data_origin_from_id
  data_origin_from_id_iff s origin = (
    (
      origin_of_normalized_sound (to_lower (trimmed s)) origin,
      λ e. rw e (origin_of_normalized_complete origin),
    ),
    rw (plain-normal (data_origin_id origin) (origin_id-IsPlain origin))
        (origin_of_normalized_complete origin),
  )

  -- A vertical datum and a data origin are read from exactly the texts whose trimmed lower-case form is
  -- their identifier, so also from the identifier; a surface model is read from exactly its identifier.
  pub ids_iff :
      (s : Text) (datum : TerrainVerticalDatum) (origin : TerrainDataOrigin)
      (model : TerrainSurfaceModel)
      → (((vertical_datum_from_id qt s ≡ some datum)
            ↔ (to_lower (trimmed s) ≡ vertical_datum_id datum))
          × (vertical_datum_from_id qt (vertical_datum_id datum) ≡ some datum))
        × (((data_origin_from_id qt s ≡ some origin)
              ↔ (to_lower (trimmed s) ≡ data_origin_id origin))
            × (data_origin_from_id qt (data_origin_id origin) ≡ some origin))
        × ((surface_model_from_id s ≡ some model) ↔ (s ≡ surface_model_id model))
  ids_iff s datum origin model = (
    vertical_datum_from_id_iff s datum,
    data_origin_from_id_iff s origin,
    surface_model_from_id_iff s model,
  )
