-- ===== src/Network/Server/Submit/Returns.antt =====
-- New requests that are answered.
use ocr_d_core.Common.{list_eq, nat_eq}
use ocr_d_core.Network.Server.{Server}
