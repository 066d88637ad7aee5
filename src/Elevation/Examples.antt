-- ===== src/Elevation/Examples.antt =====
-- lib/terrain_elevation.cpp: the identifiers of a concrete text.
use aowis_server_map.Prelude.{◌≡◌, ◌↔◌, some, codes}
use aowis_server_map.Platform.Instances.{ascii}
use aowis_server_map.Elevation.{
  TerrainVerticalDatum, TerrainDataOrigin, TerrainSurfaceModel, vertical_datum_id, data_origin_id,
  surface_model_id, surface_model_from_id, vertical_datum_from_id, data_origin_from_id,
}
use aowis_server_map.Elevation.Ids.{ids_iff}

ids_iff_example :
    (((vertical_datum_from_id ascii (codes " EGM96") ≡ some TerrainVerticalDatum.egm96) ↔ (
        ascii.to_lower (ascii.trimmed (codes " EGM96"))
        ≡ vertical_datum_id TerrainVerticalDatum.egm96))
      × (vertical_datum_from_id ascii (vertical_datum_id TerrainVerticalDatum.egm96)
          ≡ some TerrainVerticalDatum.egm96))
    × (((data_origin_from_id ascii (codes " EGM96") ≡ some TerrainDataOrigin.cache) ↔ (
          ascii.to_lower (ascii.trimmed (codes " EGM96")) ≡ data_origin_id TerrainDataOrigin.cache))
        × (data_origin_from_id ascii (data_origin_id TerrainDataOrigin.cache)
            ≡ some TerrainDataOrigin.cache))
    × ((surface_model_from_id (codes " EGM96") ≡ some TerrainSurfaceModel.dsm)
        ↔ (codes " EGM96" ≡ surface_model_id TerrainSurfaceModel.dsm))
ids_iff_example =
    ids_iff ascii (codes " EGM96") TerrainVerticalDatum.egm96 TerrainDataOrigin.cache
      TerrainSurfaceModel.dsm
