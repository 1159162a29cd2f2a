-- ===== src/AcpRecorder/Complete.antt =====
-- A storage that works stores the whole run.
use sonalmod.Base.{◌≡◌, true, Text, text, ◌⊎◌}
use sonalmod.SessionEvent.{SessionEvent}
use sonalmod.AcpRecorder.Service.{session, failed, SessionService, RunRequest, text_contains}

module _ {J H S : Type 0} (storage : SessionService J H S) where
  -- A session that is there, or one that is not and can be created.
  abbrev pub IsOpened : RunRequest → S → Type 0
  IsOpened req s =
      ((h : H) × (storage.get req.user_id req.session_id s ≡ session h))
      ⊎ ((e : Text) × (h : H) × (storage.get req.user_id req.session_id s ≡ failed e)
          × (text_contains e (text "not found") ≡ true)
          × ((storage.create req.user_id req.session_id s).0 ≡ session h))
