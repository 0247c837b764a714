-- ===== src/Runtime/Answers.antt =====
-- What a request that is answered says of the runtime.
use lemnos.Prelude.{text_ord}
use lemnos.Core.Interface.{interface_ord}
use lemnos.Runtime.Defs.{Runtime}
