-- ===== src/Account/HandleRules/Reserved/NamesB.antt =====
-- src/account/handle/reserved.rs: the names from `clients1` to `feedburner`.
use manapds.Prelude.{Str, List, [], ◌∷◌}
use manapds.Prelude.Bytes.{codes}

unfoldable pub names_b : List Str
names_b =
    codes "clients1"
    ∷ codes "cnarne"
    ∷ codes "cnnbrk"
    ∷ codes "code"
    ∷ codes "coldplay"
    ∷ codes "comercial"
    ∷ codes "comment"
    ∷ codes "comments"
    ∷ codes "communities"
    ∷ codes "community"
    ∷ codes "company"
    ∷ codes "compare"
    ∷ codes "compras"
    ∷ codes "conanobrien"
    ∷ codes "config"
    ∷ codes "configuration"
    ∷ codes "confirm"
    ∷ codes "confirmation"
    ∷ codes "connect"
    ∷ codes "contact"
    ∷ codes "contact-us"
    ∷ codes "contact_us"
    ∷ codes "contacts"
    ∷ codes "contactus"
    ∷ codes "content"
    ∷ codes "contest"
    ∷ codes "contribute"
    ∷ codes "contributor"
    ∷ codes "contributors"
    ∷ codes "coppa"
    ∷ codes "copyright"
    ∷ codes "copyrights"
    ∷ codes "core"
    ∷ codes "corp"
    ∷ codes "correio"
    ∷ codes "countries"
    ∷ codes "country"
    ∷ codes "cpanel"
    ∷ codes "create"
    ∷ codes "cristiano"
    ∷ codes "css"
    ∷ codes "cssproxy"
    ∷ codes "customise"
    ∷ codes "customize"
    ∷ codes "danieltosh"
    ∷ codes "dashboard"
    ∷ codes "data"
    ∷ codes "davidguetta"
    ∷ codes "db"
    ∷ codes "ddlovato"
    ∷ codes "deepikapadukone"
    ∷ codes "default"
    ∷ codes "delete"
    ∷ codes "demo"
    ∷ codes "design"
    ∷ codes "designer"
    ∷ codes "desktop"
    ∷ codes "destroy"
    ∷ codes "dev"
    ∷ codes "devel"
    ∷ codes "developer"
    ∷ codes "developers"
    ∷ codes "devs"
    ∷ codes "diagram"
    ∷ codes "diary"
    ∷ codes "dict"
    ∷ codes "dictionary"
    ∷ codes "did"
    ∷ codes "die"
    ∷ codes "dir"
    ∷ codes "direct-messages"
    ∷ codes "direct_messages"
    ∷ codes "directory"
    ∷ codes "dist"
    ∷ codes "diversity"
    ∷ codes "dl"
    ∷ codes "dmca"
    ∷ codes "doc"
    ∷ codes "docs"
    ∷ codes "documentation"
    ∷ codes "documentations"
    ∷ codes "documents"
    ∷ codes "domain"
    ∷ codes "domains"
    ∷ codes "donate"
    ∷ codes "download"
    ∷ codes "downloads"
    ∷ codes "dozle_official"
    ∷ codes "drake"
    ∷ codes "dril"
    ∷ codes "e"
    ∷ codes "e-mail"
    ∷ codes "earth"
    ∷ codes "ecommerce"
    ∷ codes "edit"
    ∷ codes "editor"
    ∷ codes "edits"
    ∷ codes "edu"
    ∷ codes "education"
    ∷ codes "elisapie"
    ∷ codes "ellendegeneres"
    ∷ codes "elonmusk"
    ∷ codes "em_com"
    ∷ codes "email"
    ∷ codes "embed"
    ∷ codes "embedded"
    ∷ codes "eminem"
    ∷ codes "emmawatson"
    ∷ codes "employment"
    ∷ codes "employments"
    ∷ codes "empty"
    ∷ codes "enable"
    ∷ codes "encrypted"
    ∷ codes "end"
    ∷ codes "engine"
    ∷ codes "enterprise"
    ∷ codes "enterprises"
    ∷ codes "entries"
    ∷ codes "entry"
    ∷ codes "error"
    ∷ codes "errorlog"
    ∷ codes "errors"
    ∷ codes "estadao"
    ∷ codes "eval"
    ∷ codes "event"
    ∷ codes "example"
    ∷ codes "examplecommunity"
    ∷ codes "exampleopenid"
    ∷ codes "examplesyn"
    ∷ codes "examplesyndicated"
    ∷ codes "exampleusername"
    ∷ codes "exchange"
    ∷ codes "exit"
    ∷ codes "explore"
    ∷ codes "famima_now"
    ∷ codes "faq"
    ∷ codes "faqs"
    ∷ codes "favorite"
    ∷ codes "favorites"
    ∷ codes "favourite"
    ∷ codes "favourites"
    ∷ codes "fcbarcelona"
    ∷ codes "feature"
    ∷ codes "features"
    ∷ codes "feed"
    ∷ codes "feedback"
    ∷ codes "feedburner"
    ∷ []
