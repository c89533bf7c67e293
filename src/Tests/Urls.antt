-- ===== src/Tests/Urls.antt =====
-- The theorem on the authorize URL, at one request.
use auth_oidc.Prelude.{some, Text, codes}
use auth_oidc.Config.{OidcConfig}
use auth_oidc.Tests.Fixture.{config}

abbrev cfg : OidcConfig
cfg = record config { authorization_endpoint = some (codes "https://idp/a?p=1") }

abbrev back : Text
back = codes "https://app/?x=1&y"
