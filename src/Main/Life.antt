-- ===== src/Main/Life.antt =====
-- The life of the server program (src/webstore.c, main): it ends at the first signal that asks for it,
-- with everything stopped and the log whole.
use webstore.Base.{Bool, ◌&&◌}
use webstore.Base.Bytes.{Bytes}
use webstore.Redis.{Redis}
use webstore.Server.{Server}
use webstore.Rai.{Rai}
use webstore.Main.Steady.{Steady}
use webstore.Main.Stop.{Late}
use webstore.Main.Shutdown.{calm}
use webstore.Main.Extends.{Extends}
use webstore.Main.Over.{Over}

-- When nothing interrupts main while it has the mutex of the log but what neither logs nor flushes, and
-- nothing else after log_close.
abbrev pub clear : Late → Bool
clear late = calm late.logging && calm late.closing && calm late.ending
