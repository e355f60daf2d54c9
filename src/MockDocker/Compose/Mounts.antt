-- ===== src/MockDocker/Compose/Mounts.antt =====
-- mock-docker/src/compose-parser.ts: the short form of a volume mount.
use dockge.Prelude.{
  String, Bool, false, List, [], ◌∷◌, ◌==◌, ◌||◌, starts_with, split, if◌then◌else◌,
}

pub record ParsedVolumeMount : Type 0 where
  pub kind : String
  pub source : String
  pub target : String
  pub read_only : Bool

unfoldable pub is_bind_source : String → Bool
is_bind_source s =
    starts_with s "/" || starts_with s "./" || starts_with s "../" || s == "." || s == ".."

-- The parts without a mode at their end, and whether the mode is "ro".
unfoldable pub take_mode : List String → List String × Bool
take_mode [] = ([], false)
take_mode (s ∷ []) = (s ∷ [], false)
take_mode (s ∷ t ∷ []) = if t == "ro" || t == "rw" then (s ∷ [], t == "ro") else (s ∷ t ∷ [], false)
take_mode (s ∷ t ∷ u ∷ parts) = let (rest, mode) = take_mode (t ∷ u ∷ parts) in (s ∷ rest, mode)

unfoldable pub mount_of : List String × Bool → ParsedVolumeMount
unfolding is_bind_source
mount_of ([], mode) = record { kind = "volume"; source = ""; target = ""; read_only = mode }
mount_of (target ∷ [], mode) = record {
  kind = "volume";
  source = "";
  target = target;
  read_only = mode;
}
mount_of (source ∷ target ∷ _, mode) = record {
  kind = if is_bind_source source then "bind" else "volume";
  source = source;
  target = target;
  read_only = mode;
}

unfoldable pub parse_volume_mount_short : String → ParsedVolumeMount
unfolding mount_of take_mode split
parse_volume_mount_short s = mount_of (take_mode (split b':' s))
