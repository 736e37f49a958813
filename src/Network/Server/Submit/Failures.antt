-- ===== src/Network/Server/Submit/Failures.antt =====
-- New requests that raise an exception after they have been let through.
use ocr_d_core.Common.{list_eq, nat_eq}
use ocr_d_core.Network.Server.{Server}
