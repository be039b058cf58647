-- ===== src/Account/HandleRules/Reserved/NamesC.antt =====
-- src/account/handle/reserved.rs: the names from `feedproxy` to `kb`.
use manapds.Prelude.{Str, List, [], ◌∷◌}
use manapds.Prelude.Bytes.{codes}

unfoldable pub names_c : List Str
names_c =
    codes "feedproxy"
    ∷ codes "feeds"
    ∷ codes "ff_xiv_jp"
    ∷ codes "file"
    ∷ codes "files"
    ∷ codes "finance"
    ∷ codes "first"
    ∷ codes "folder"
    ∷ codes "folders"
    ∷ codes "folha"
    ∷ codes "following"
    ∷ codes "forgot"
    ∷ codes "form"
    ∷ codes "forms"
    ∷ codes "forum"
    ∷ codes "forums"
    ∷ codes "founder"
    ∷ codes "foxnews"
    ∷ codes "free"
    ∷ codes "friend"
    ∷ codes "friends"
    ∷ codes "ftp"
    ∷ codes "fuck"
    ∷ codes "fujitv"
    ∷ codes "fun"
    ∷ codes "fusion"
    ∷ codes "gadget"
    ∷ codes "gadgets"
    ∷ codes "game"
    ∷ codes "games"
    ∷ codes "gazetadopovo"
    ∷ codes "gears"
    ∷ codes "general"
    ∷ codes "geographic"
    ∷ codes "get"
    ∷ codes "gettingstarted"
    ∷ codes "gift"
    ∷ codes "gifts"
    ∷ codes "gigazine"
    ∷ codes "gist"
    ∷ codes "git"
    ∷ codes "github"
    ∷ codes "gmail"
    ∷ codes "go"
    ∷ codes "golang"
    ∷ codes "goto"
    ∷ codes "gov"
    ∷ codes "graph"
    ∷ codes "graphs"
    ∷ codes "gretathunberg"
    ∷ codes "group"
    ∷ codes "groups"
    ∷ codes "guest"
    ∷ codes "guests"
    ∷ codes "guide"
    ∷ codes "guides"
    ∷ codes "hack"
    ∷ codes "hacks"
    ∷ codes "hajimesyacho"
    ∷ codes "handle"
    ∷ codes "harry_styles"
    ∷ codes "head"
    ∷ codes "help"
    ∷ codes "hikakin"
    ∷ codes "hillaryclinton"
    ∷ codes "home"
    ∷ codes "homepage"
    ∷ codes "host"
    ∷ codes "hosting"
    ∷ codes "hostmaster"
    ∷ codes "hostname"
    ∷ codes "how-to"
    ∷ codes "how_to"
    ∷ codes "howto"
    ∷ codes "html"
    ∷ codes "htrnl"
    ∷ codes "http"
    ∷ codes "httpd"
    ∷ codes "https"
    ∷ codes "i"
    ∷ codes "iamges"
    ∷ codes "iamsrk"
    ∷ codes "icon"
    ∷ codes "icons"
    ∷ codes "id"
    ∷ codes "idea"
    ∷ codes "ideas"
    ∷ codes "ihrithik"
    ∷ codes "im"
    ∷ codes "imac"
    ∷ codes "image"
    ∷ codes "images"
    ∷ codes "imap"
    ∷ codes "img"
    ∷ codes "imvkohli"
    ∷ codes "inbox"
    ∷ codes "inboxes"
    ∷ codes "index"
    ∷ codes "indexes"
    ∷ codes "info"
    ∷ codes "information"
    ∷ codes "inquiry"
    ∷ codes "instagram"
    ∷ codes "intranet"
    ∷ codes "investor"
    ∷ codes "investors"
    ∷ codes "invitation"
    ∷ codes "invitations"
    ∷ codes "invite"
    ∷ codes "invoice"
    ∷ codes "invoices"
    ∷ codes "ios"
    ∷ codes "ipad"
    ∷ codes "iphone"
    ∷ codes "irc"
    ∷ codes "irnages"
    ∷ codes "irng"
    ∷ codes "is"
    ∷ codes "issue"
    ∷ codes "issues"
    ∷ codes "it"
    ∷ codes "item"
    ∷ codes "items"
    ∷ codes "ivetesangalo"
    ∷ codes "jairbolsonaro"
    ∷ codes "java"
    ∷ codes "javascript"
    ∷ codes "jimmyfallon"
    ∷ codes "jlo"
    ∷ codes "job"
    ∷ codes "jobs"
    ∷ codes "jocx"
    ∷ codes "joebiden"
    ∷ codes "join"
    ∷ codes "jornaldobrasil"
    ∷ codes "jornaloglobo"
    ∷ codes "jotx"
    ∷ codes "js"
    ∷ codes "json"
    ∷ codes "jtimberlake"
    ∷ codes "jump"
    ∷ codes "justinbieber"
    ∷ codes "kaka"
    ∷ codes "kamalaharris"
    ∷ codes "kanyewest"
    ∷ codes "katyperry"
    ∷ codes "kb"
    ∷ []
