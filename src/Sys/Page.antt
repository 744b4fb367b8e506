-- ===== src/Sys/Page.antt =====
-- service/http/home.go: the two pages. `printed` is `fmt.Fprintf` of a format with no arguments, and
-- `marshal` the JSON text of the system information.
use gim.Base.{String, List, [], ◌∷◌, map}
use gim.ImErr.{Result, ok, err}
use gim.Types.Server.{SycCollectInfo}

module _ (printed : String → String) where
  -- What is written to the response, one text after the other.
  unfoldable pub home_page : List String
  home_page = printed "Home Page" ∷ []

  -- After an error the empty text is written too.
  abbrev info_texts : Result String → List String
  info_texts (err e) = "获取系统信息失败" ∷ "" ∷ []
  info_texts (ok text) = text ∷ []

  unfoldable pub sys_info_page :
      {P : Type 0} → (SycCollectInfo P → Result String) → SycCollectInfo P → List String
  sys_info_page marshal sys_info = map printed (info_texts (marshal sys_info))
