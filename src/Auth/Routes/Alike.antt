-- ===== src/Auth/Routes/Alike.antt =====
-- What asking for a reset link answers (app/modules/auth/router.py).
use prompt_studio_backend.Prelude.{string_eq}
