-- ===== src/Chain/Partition/Table.antt =====
-- The table of `MapInfo`, one definition for each line of it.
use sharded_blockchain_dashb.Base.Keyed.{bytes_is_eq}
use sharded_blockchain_dashb.Base.{ℕ, [], ◌∷◌, ◌++◌}
use sharded_blockchain_dashb.Base.Dict.{Dict}
use sharded_blockchain_dashb.Base.Text.{codes}
use sharded_blockchain_dashb.Core.{Address}

abbrev first_rows : Dict Address ℕ
first_rows =
    (codes "0xea674fdde714fd979de3edf0f56aa9716b898ec8", 1)
    ∷ (codes "0xa42af2c70d316684e57aefcc6e393fecb1c7e84e", 1)
    ∷ (codes "0x6c7f03ddfdd8a37ca267c88630a4fee958591de0", 1)
    ∷ (codes "0x70faa28a6b8d6829a4b1e649d26ec9a2a39ba413", 1)
    ∷ (codes "0xfbb1b73c4f0bda4f67dca266ce6ef42f520fbb98", 1)
    ∷ (codes "0xcaa216e03ee4932941ef0729f250e297fd5655ad", 1)
    ∷ (codes "0xfbe26da0e985087d28228defbdaa394713b0865f", 1)
    ∷ (codes "0xe9eeaec75883f0e389a78e2260bfac1776df2f1d", 1)
    ∷ (codes "0x517c265f45eac01389dbb3045206c1d07c7a178c", 1)
    ∷ (codes "0xc4df9a95d783c1d181b81c69370d201e595acea8", 1)
    ∷ (codes "0x556b5712c2a7cc5506fbfa785b52536fb8243765", 1)
    ∷ (codes "0x3c0aab77940d82dd73d6eb2a67682e0c4095e0ad", 1)
    ∷ (codes "0x45857089358bc54891067319e8c0b60a5a552bfe", 1)
    ∷ (codes "0x167a9333bf582556f35bd4d16a7e80e191aa6476", 1)
    ∷ (codes "0xfde9fa07b01ece3e51a3e509cc30bc8d6380b45b", 1)
    ∷ (codes "0x24f21c22f0e641e2371f04a7bb8d713f89f53550", 1)
    ∷ (codes "0x754c50465885f1ed1fa1a55b95ee8ecf3f1f4324 ", 1)
    ∷ []

abbrev second_rows : Dict Address ℕ
second_rows =
    (codes "0x2a65aca4d5fc5b5c859090a6c34d164135398226", 2)
    ∷ (codes "0x61c808d82a3ac53231750dadc13c777b59310bd9", 2)
    ∷ (codes "0x27bebc44c6f60f99d558422288d616ee15dcb36d", 2)
    ∷ (codes "0x32be343b94f860124dc4fee278fdcbd38c102d88", 2)
    ∷ (codes "0x267be1c1d684f78cb4f6a176c4911b741e4ffdc0", 2)
    ∷ (codes "0x96fc4553a00c117c5b0bed950dd625d1c16dc894", 2)
    ∷ (codes "0x09820a2fae3bd73b5009e89ccb7bb236ff59b744", 2)
    ∷ (codes "0x81f631b8615eab75d38dac4d4bce4a5b63e10310", 2)
    ∷ (codes "0x1151314c646ce4e0efd76d1af4760ae66a9fe30f", 2)
    ∷ (codes "0x999d1ce359692aebc26cd969a31d47d150128600", 2)
    ∷ (codes "0x304cc179719bc5b05418d6f7f6783abe45d83090", 2)
    ∷ (codes "0xcf40d0d2b44f2b66e07cace1372ca42b73cf21a3", 2)
    ∷ (codes "0x8b2232c5006a7c9bcb7b52d07ad429bb71ae2c1c", 2)
    ∷ (codes "0xab11204cfeaccffa63c2d23aef2ea9accdb0a0d5", 2)
    ∷ (codes "0xb36cbe7f95a39984384e6aa4068b02c1697ef80e", 2)
    ∷ (codes "0x4cd3fce91781904ac10e88619045719dee6869ee", 2)
    ∷ (codes "0xa2a8f158aed54ce9a73d41eeec23bf3a51b5654d", 2)
    ∷ (codes "0xacb0c84dbca1d25fe97d5513456b926abd758dbe", 2)
    ∷ (codes "0xdf21fa922215b1a56f5a6d6294e6e36c85a0acfb", 2)
    ∷ []

abbrev third_rows : Dict Address ℕ
third_rows =
    (codes "0x9e0b9ddba97dd4f7addab0b5f67036eebe687606", 3)
    ∷ (codes "0x1e9939daaad6924ad004c2560e90804164900341", 3)
    ∷ (codes "0xb2d955733e6a470533f68f72d0af442070f24f55", 3)
    ∷ (codes "0xb2930b35844a230f00e51431acae96fe543a0347", 3)
    ∷ (codes "0xa8f769b88d6d74fb2bd3912f6793f75625228baf", 3)
    ∷ (codes "0x9e6316f44baeeee5d41a1070516cc5fa47baf227", 3)
    ∷ (codes "0xfd4ef6b7b52ec618881636c851dd9f28683d4d47", 3)
    ∷ (codes "0x96338149e9f6c262d4cb7aeec1cf4c652079a11c", 3)
    ∷ (codes "0xa027231f42c80ca4125b5cb962a21cd4f812e88f", 3)
    ∷ (codes "0x7ed1e469fcb3ee19c0366d829e291451be638e59", 3)
    ∷ (codes "0x00a63d34051602b2cb268ea344d4b8bc4767f2d4", 3)
    ∷ (codes "0xdfad8c8a6172d33b95038ec5bb067239b71f70d0", 3)
    ∷ (codes "0x02459d2ea9a008342d8685dae79d213f14a87d43", 3)
    ∷ (codes "0x1fd6267f0d86f62d88172b998390afee2a1f54b6", 3)
    ∷ (codes "0x40ce7569d555dbf939e58867be78fd76142df821", 3)
    ∷ (codes "0xc49a0f384cdfbe5cef14dc663639af7d11ec11d0", 3)
    ∷ (codes "0x9c67e141c0472115aa1b98bd0088418be68fd249", 3)
    ∷ (codes "0x9e9d1613f966936f74534ba71614350d1d87c4b1", 3)
    ∷ (codes "0x594ec26a4ac4ee03f625357af76f033e4ea2b53c", 3)
    ∷ (codes "0xfcdc0ba0c152ed4b9e7add6f73896c18af636565", 3)
    ∷ (codes "0x049029dd41661e58f99271a0112dfd34695f7000 ", 3)
    ∷ (codes "0xf34a762291e2578b79646cbf296abf4f5a242b3d", 3)
    ∷ (codes "0xd3d038bcb4f2450c592381f8bb4bee860532ee9d", 3)
    ∷ (codes "0xcd88e0e0c455345833ce31c5452c1c37f4b4c438", 3)
    ∷ (codes "0x86c9981b0d85e1cd6f42b10b8305ffd88f64f55e", 3)
    ∷ (codes "0x138ad256e99d8818fd4305d12e6f7ea0aac09d59", 3)
    ∷ (codes "0x16545fb79dbee1ad3a7f868b7661c023f372d5de", 3)
    ∷ (codes "0x3143e1cabc3547acde8b630e0dea3b1dfebb3cb0", 3)
    ∷ (codes "0x6483d4dbbeae052f69c90b0bd26ccff2a44ada13", 3)
    ∷ (codes "0x211e96f7a2dfbc2512331f69976445b28f8e63e6", 3)
    ∷ (codes "0x9ad47b64f333fb2e313ee7828e11bef01aa8c2de", 3)
    ∷ (codes "0xac4361f56c82ed59d533d45129f407015d84702a", 3)
    ∷ []

abbrev fourth_rows : Dict Address ℕ
fourth_rows =
    (codes "0xd34da389374caad1a048fbdc4569aae33fd5a375", 0)
    ∷ (codes "0x52bc44d5378309ee2abf1539bf71de1b7d7be3b5", 0)
    ∷ (codes "0x9535b2e7faaba5288511d89341d94a38063a349b", 0)
    ∷ (codes "0x4bb96091ee9d802ed039c4d1a5f6216f90f81b01", 0)
    ∷ (codes "0xf8165fe1c2cc5360049e2b9c6bd88432a01c0d24", 0)
    ∷ (codes "0x7b818b805ac3a94e74e5d417f5871ca0a53fd04d ", 0)
    ∷ (codes "0x7baf96ee63017cc63d7da8df51fb04d4c3a7ef7b", 0)
    ∷ (codes "0x26588a9301b0428d95e6fc3a5024fce8bec12d51", 0)
    ∷ (codes "0x42da8a05cb7ed9a43572b5ba1b8f82a0a6e263dc", 0)
    ∷ (codes "0x91337a300e0361bddb2e377dd4e88ccb7796663d", 0)
    ∷ (codes "0x215c86bc952b0d98c4b2313a0a9ae56fa33c7f5d", 0)
    ∷ (codes "0x3a088473a45ef73c40add2d2af2b5b0106fe2e8f", 0)
    ∷ (codes "0xd94c9ff168dc6aebf9b6cc86deff54f3fb0afc33", 0)
    ∷ (codes "0x4334275bca3eea692973a3f2de1a783cb59148d8", 0)
    ∷ (codes "0xef846f473ef73c34d75712babd7d04bfabd7b56c", 0)
    ∷ (codes "0xf90c9ac616ecfefb3860aaa5bc33caf9bc606441", 0)
    ∷ (codes "0xbbabf639cd15a5692e237c2412bfe1afe7a37d08", 0)
    ∷ (codes "0xed059bc543141c8c93031d545079b3da0233b27f", 0)
    ∷ (codes "0xb84961e1ffae1f131fba36a6a90c03e124f970ee", 0)
    ∷ (codes "0x2754d69d250c71b88f0d72246fb235ac38e39550", 0)
    ∷ (codes "0x06a2cf3f024d8871baedd0f7bd9340001aada574", 0)
    ∷ (codes "0x5ce174e21ec9e29af1132c606f41305e2905f1db", 0)
    ∷ []

unfoldable pub shard_data : Dict Address ℕ
shard_data = first_rows ++ (second_rows ++ (third_rows ++ fourth_rows))
