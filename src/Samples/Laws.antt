-- ===== src/Samples/Laws.antt =====
-- The sample environment meets the laws.
use xorc_gateway.Base.{replicate, refl, text, arith}
use xorc_gateway.Crates.Samples.{plain_base64-IsBase64, plain_aead-IsAead, plain_uuids-IsUuids}
use xorc_gateway.Gateway.Devices.{IsLawful, IsChance}
use xorc_gateway.Samples.Clusters.{
  plain_cluster-IsAvailable, plain_cluster-KeepsIfas, plain_cluster-HoldsUuids,
}
use xorc_gateway.Samples.Requests.{env, chance}

pub lawful : IsLawful env
lawful = record {
  base64 = plain_base64-IsBase64;
  aead = plain_aead-IsAead;
  key = replicate 32 7;
  secret = refl;
  sized = refl;
  uuids = plain_uuids-IsUuids;
  available = plain_cluster-IsAvailable;
  keeps = plain_cluster-KeepsIfas (text "ks");
  holds = plain_cluster-HoldsUuids;
}

pub random : IsChance chance
random = record { twelve = refl; bytes = omega arith; uuid = omega arith }
