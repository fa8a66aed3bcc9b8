-- ===== src/Go/Url.antt =====
-- net/url as an interface: what url.Parse answers, by the fields and methods that the program reads.
use go_web_eid.Common.{Option}
use go_web_eid.Go.Text.{Text}
use go_web_eid.Exceptions.{Result}

-- url.URL; `hostname` is the answer of Hostname.
pub record Url : Type 0 where
  pub scheme : Text
  -- `User`, as it is written
  pub user : Option Text
  pub host : Text
  pub hostname : Text
  pub path : Text
  pub raw_query : Text
  pub fragment : Text

-- url.Parse
abbrev pub ParseUrl : Type 0
ParseUrl = Text → Result Url
