-- ===== src/Account/HandleRules/Reserved/NamesF.antt =====
-- src/account/handle/reserved.rs: the names from `request` to `task`.
use manapds.Prelude.{Str, List, [], ◌∷◌}
use manapds.Prelude.Bytes.{codes}

unfoldable pub names_f : List Str
names_f =
    codes "request"
    ∷ codes "requests"
    ∷ codes "research"
    ∷ codes "reset"
    ∷ codes "resolve"
    ∷ codes "resolver"
    ∷ codes "review"
    ∷ codes "ricky_martin"
    ∷ codes "rihanna"
    ∷ codes "rnail"
    ∷ codes "rnicrosoft"
    ∷ codes "roc"
    ∷ codes "rolaworld"
    ∷ codes "rondesantisfl"
    ∷ codes "root"
    ∷ codes "rss"
    ∷ codes "ruby"
    ∷ codes "rule"
    ∷ codes "sachin_rt"
    ∷ codes "sag"
    ∷ codes "sale"
    ∷ codes "sales"
    ∷ codes "sample"
    ∷ codes "samples"
    ∷ codes "sandbox"
    ∷ codes "save"
    ∷ codes "scholar"
    ∷ codes "school"
    ∷ codes "schools"
    ∷ codes "script"
    ∷ codes "scripts"
    ∷ codes "search"
    ∷ codes "secure"
    ∷ codes "security"
    ∷ codes "seikintv"
    ∷ codes "selenagomez"
    ∷ codes "self"
    ∷ codes "seminars"
    ∷ codes "send"
    ∷ codes "server"
    ∷ codes "server-info"
    ∷ codes "server-status"
    ∷ codes "server_info"
    ∷ codes "server_status"
    ∷ codes "servers"
    ∷ codes "service"
    ∷ codes "services"
    ∷ codes "session"
    ∷ codes "sessions"
    ∷ codes "setting"
    ∷ codes "settings"
    ∷ codes "setup"
    ∷ codes "shakira"
    ∷ codes "share"
    ∷ codes "shawnmendes"
    ∷ codes "shop"
    ∷ codes "shopping"
    ∷ codes "shortcut"
    ∷ codes "shortcuts"
    ∷ codes "show"
    ∷ codes "sign-in"
    ∷ codes "sign-up"
    ∷ codes "sign_in"
    ∷ codes "sign_up"
    ∷ codes "signin"
    ∷ codes "signout"
    ∷ codes "signup"
    ∷ codes "site"
    ∷ codes "sitemap"
    ∷ codes "sitemaps"
    ∷ codes "sitenews"
    ∷ codes "sites"
    ∷ codes "sketchup"
    ∷ codes "sky"
    ∷ codes "slash"
    ∷ codes "slashinvoice"
    ∷ codes "slut"
    ∷ codes "smartphone"
    ∷ codes "sms"
    ∷ codes "smtp"
    ∷ codes "snoopdogg"
    ∷ codes "soap"
    ∷ codes "software"
    ∷ codes "sorry"
    ∷ codes "source"
    ∷ codes "spec"
    ∷ codes "special"
    ∷ codes "sportscenter"
    ∷ codes "spreadsheet"
    ∷ codes "spreadsheets"
    ∷ codes "sql"
    ∷ codes "srbachchan"
    ∷ codes "src"
    ∷ codes "srntp"
    ∷ codes "ssh"
    ∷ codes "ssl"
    ∷ codes "ssladmin"
    ∷ codes "ssladministrator"
    ∷ codes "sslwebmaster"
    ∷ codes "ssytem"
    ∷ codes "staff"
    ∷ codes "stage"
    ∷ codes "staging"
    ∷ codes "starbucksjapan"
    ∷ codes "start"
    ∷ codes "stat"
    ∷ codes "state"
    ∷ codes "static"
    ∷ codes "statistics"
    ∷ codes "stats"
    ∷ codes "status"
    ∷ codes "store"
    ∷ codes "stores"
    ∷ codes "stories"
    ∷ codes "style"
    ∷ codes "styleguide"
    ∷ codes "styles"
    ∷ codes "stylesheet"
    ∷ codes "stylesheets"
    ∷ codes "subdomain"
    ∷ codes "subhisharma100"
    ∷ codes "subscribe"
    ∷ codes "subscription"
    ∷ codes "subscriptions"
    ∷ codes "suggest"
    ∷ codes "suggestqueries"
    ∷ codes "support"
    ∷ codes "survey"
    ∷ codes "surveys"
    ∷ codes "surveytool"
    ∷ codes "svn"
    ∷ codes "swf"
    ∷ codes "syn"
    ∷ codes "sync"
    ∷ codes "syndicated"
    ∷ codes "sys"
    ∷ codes "sysadmin"
    ∷ codes "sysadministrator"
    ∷ codes "sysadmins"
    ∷ codes "system"
    ∷ codes "tablet"
    ∷ codes "tablets"
    ∷ codes "tag"
    ∷ codes "tags"
    ∷ codes "talk"
    ∷ codes "talkgadget"
    ∷ codes "task"
    ∷ []
