-- ===== src/Tile/Examples.antt =====
-- lib/terrain_tile.cpp: a tile that is written and read.
use aowis_server_map.Prelude.{◌≡◌, refl, Bytes}
use aowis_server_map.Prelude.Int.{pos}
use aowis_server_map.Platform.Instances.{small_floats, ascii}
use aowis_server_map.Tile.Defs.{TerrainTile, ok, is_valid_address}
use aowis_server_map.Tile.Codec.{encode_tile}
use aowis_server_map.Tile.Fixture.{tile_at, file_at, encoded_at}
use aowis_server_map.Tile.Parser.{decode_tile}
use aowis_server_map.Tile.Valid.{quantised}
use aowis_server_map.Tile.RoundTrip.{decode-encode_tile}
use aowis_server_map.Tile.Sound.{Accepted, decode_tile-Accepted}

abbrev tile : TerrainTile small_floats
tile = tile_at (record { zoom = pos 3; x = 5; y = 2 })

abbrev file : Bytes
file = file_at (record { zoom = pos 3; x = 5; y = 2 })

encoded : encode_tile small_floats ascii tile ≡ ok file
unfolding is_valid_address
encoded = encoded_at (record { zoom = pos 3; x = 5; y = 2 }) refl

decode-encode_tile_example :
    decode_tile small_floats ascii file ≡ ok (quantised small_floats ascii tile)
decode-encode_tile_example = decode-encode_tile small_floats ascii tile file encoded

decode_tile-Accepted_example : Accepted small_floats ascii file (quantised small_floats ascii tile)
decode_tile-Accepted_example =
    decode_tile-Accepted small_floats ascii file (quantised small_floats ascii tile)
      (decode-encode_tile small_floats ascii tile file encoded)
