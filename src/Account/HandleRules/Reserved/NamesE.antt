-- ===== src/Account/HandleRules/Reserved/NamesE.antt =====
-- src/account/handle/reserved.rs: the names from `nsid` to `req`.
use manapds.Prelude.{Str, List, [], ◌∷◌}
use manapds.Prelude.Bytes.{codes}

unfoldable pub names_e : List Str
names_e =
    codes "nsid"
    ∷ codes "ntv"
    ∷ codes "null"
    ∷ codes "nytimes"
    ∷ codes "oauth"
    ∷ codes "oauth-clients"
    ∷ codes "oauth_clients"
    ∷ codes "ocsp"
    ∷ codes "offer"
    ∷ codes "offers"
    ∷ codes "official"
    ∷ codes "old"
    ∷ codes "onedirection"
    ∷ codes "online"
    ∷ codes "oowareware1945"
    ∷ codes "openid"
    ∷ codes "operator"
    ∷ codes "oprah"
    ∷ codes "option"
    ∷ codes "options"
    ∷ codes "order"
    ∷ codes "orders"
    ∷ codes "org"
    ∷ codes "organization"
    ∷ codes "organizations"
    ∷ codes "other"
    ∷ codes "overview"
    ∷ codes "owner"
    ∷ codes "owners"
    ∷ codes "p0rn"
    ∷ codes "pack"
    ∷ codes "page"
    ∷ codes "pager"
    ∷ codes "pages"
    ∷ codes "paid"
    ∷ codes "pamyurin"
    ∷ codes "panel"
    ∷ codes "partner"
    ∷ codes "partnerpage"
    ∷ codes "partners"
    ∷ codes "password"
    ∷ codes "patch"
    ∷ codes "paulocoelho"
    ∷ codes "pay"
    ∷ codes "payment"
    ∷ codes "pds"
    ∷ codes "people"
    ∷ codes "perl"
    ∷ codes "person"
    ∷ codes "phone"
    ∷ codes "photo"
    ∷ codes "photoalbum"
    ∷ codes "photos"
    ∷ codes "php"
    ∷ codes "phpmyadmin"
    ∷ codes "phppgadmin"
    ∷ codes "phpredisadmin"
    ∷ codes "pic"
    ∷ codes "pics"
    ∷ codes "picture"
    ∷ codes "pictures"
    ∷ codes "ping"
    ∷ codes "pink"
    ∷ codes "pitbull"
    ∷ codes "pixel"
    ∷ codes "places"
    ∷ codes "plan"
    ∷ codes "plans"
    ∷ codes "playstation"
    ∷ codes "plc"
    ∷ codes "plugin"
    ∷ codes "plugins"
    ∷ codes "pmoindia"
    ∷ codes "podcasts"
    ∷ codes "poke_times"
    ∷ codes "policies"
    ∷ codes "policy"
    ∷ codes "pop"
    ∷ codes "pop3"
    ∷ codes "popular"
    ∷ codes "porn"
    ∷ codes "portal"
    ∷ codes "portalr7"
    ∷ codes "portals"
    ∷ codes "post"
    ∷ codes "postfix"
    ∷ codes "postmaster"
    ∷ codes "posts"
    ∷ codes "potus"
    ∷ codes "pr"
    ∷ codes "pr0n"
    ∷ codes "premierleague"
    ∷ codes "premium"
    ∷ codes "press"
    ∷ codes "price"
    ∷ codes "pricing"
    ∷ codes "principles"
    ∷ codes "print"
    ∷ codes "privacy"
    ∷ codes "privacy-policy"
    ∷ codes "privacy_policy"
    ∷ codes "privacypolicy"
    ∷ codes "private"
    ∷ codes "priyankachopra"
    ∷ codes "prod"
    ∷ codes "product"
    ∷ codes "production"
    ∷ codes "products"
    ∷ codes "profile"
    ∷ codes "profiles"
    ∷ codes "project"
    ∷ codes "projects"
    ∷ codes "promo"
    ∷ codes "promotions"
    ∷ codes "proxies"
    ∷ codes "proxy"
    ∷ codes "pub"
    ∷ codes "public"
    ∷ codes "purchase"
    ∷ codes "purpose"
    ∷ codes "put"
    ∷ codes "python"
    ∷ codes "queries"
    ∷ codes "query"
    ∷ codes "radio"
    ∷ codes "random"
    ∷ codes "ranking"
    ∷ codes "read"
    ∷ codes "reader"
    ∷ codes "readme"
    ∷ codes "realdonaldtrump"
    ∷ codes "recent"
    ∷ codes "recruit"
    ∷ codes "recruitment"
    ∷ codes "rede_globo"
    ∷ codes "redirect"
    ∷ codes "register"
    ∷ codes "registration"
    ∷ codes "release"
    ∷ codes "remove"
    ∷ codes "replies"
    ∷ codes "repo"
    ∷ codes "report"
    ∷ codes "reports"
    ∷ codes "repositories"
    ∷ codes "repository"
    ∷ codes "req"
    ∷ []
