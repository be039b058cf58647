-- ===== src/Account/HandleRules/Reserved/NamesG.antt =====
-- src/account/handle/reserved.rs: the names from `tasks` to `zerohora`.
use manapds.Prelude.{Str, List, [], ◌∷◌}
use manapds.Prelude.Bytes.{codes}

unfoldable pub names_g : List Str
names_g =
    codes "tasks"
    ∷ codes "taylorswift"
    ∷ codes "taylorswift13"
    ∷ codes "tbs"
    ∷ codes "tbs_pr"
    ∷ codes "team"
    ∷ codes "teams"
    ∷ codes "tech"
    ∷ codes "telnet"
    ∷ codes "term"
    ∷ codes "terms"
    ∷ codes "terms-of-service"
    ∷ codes "terms_of_service"
    ∷ codes "termsofservice"
    ∷ codes "test"
    ∷ codes "testing"
    ∷ codes "tests"
    ∷ codes "text"
    ∷ codes "theeconomist"
    ∷ codes "theme"
    ∷ codes "themes"
    ∷ codes "therock"
    ∷ codes "thread"
    ∷ codes "threads"
    ∷ codes "ticket"
    ∷ codes "tickets"
    ∷ codes "tid"
    ∷ codes "tmp"
    ∷ codes "to-do"
    ∷ codes "to_do"
    ∷ codes "todo"
    ∷ codes "toml"
    ∷ codes "tool"
    ∷ codes "toolbar"
    ∷ codes "toolbars"
    ∷ codes "tools"
    ∷ codes "top"
    ∷ codes "topic"
    ∷ codes "topics"
    ∷ codes "tos"
    ∷ codes "tour"
    ∷ codes "trac"
    ∷ codes "trace"
    ∷ codes "translate"
    ∷ codes "translation"
    ∷ codes "translations"
    ∷ codes "translator"
    ∷ codes "trends"
    ∷ codes "tutorial"
    ∷ codes "tux"
    ∷ codes "tv"
    ∷ codes "tvasahi"
    ∷ codes "tvtokyo"
    ∷ codes "twitter"
    ∷ codes "txt"
    ∷ codes "ukraine"
    ∷ codes "ul"
    ∷ codes "undef"
    ∷ codes "unfollow"
    ∷ codes "unsubscribe"
    ∷ codes "update"
    ∷ codes "updates"
    ∷ codes "upgrade"
    ∷ codes "upgrades"
    ∷ codes "upi"
    ∷ codes "upload"
    ∷ codes "uploads"
    ∷ codes "url"
    ∷ codes "usage"
    ∷ codes "user"
    ∷ codes "username"
    ∷ codes "usernames"
    ∷ codes "users"
    ∷ codes "uuid"
    ∷ codes "validation"
    ∷ codes "validations"
    ∷ codes "ver"
    ∷ codes "version"
    ∷ codes "video"
    ∷ codes "video-stats"
    ∷ codes "videos"
    ∷ codes "virendersehwag"
    ∷ codes "visitor"
    ∷ codes "visitors"
    ∷ codes "voice"
    ∷ codes "volunteer"
    ∷ codes "volunteers"
    ∷ codes "w"
    ∷ codes "washingtonpost"
    ∷ codes "watch"
    ∷ codes "wave"
    ∷ codes "weather"
    ∷ codes "web"
    ∷ codes "webdisk"
    ∷ codes "webhook"
    ∷ codes "webhooks"
    ∷ codes "webmail"
    ∷ codes "webmaster"
    ∷ codes "webmasters"
    ∷ codes "webrnail"
    ∷ codes "website"
    ∷ codes "websites"
    ∷ codes "welcome"
    ∷ codes "whitehouse45"
    ∷ codes "whm"
    ∷ codes "whois"
    ∷ codes "widget"
    ∷ codes "widgets"
    ∷ codes "wifi"
    ∷ codes "wiki"
    ∷ codes "wikis"
    ∷ codes "win"
    ∷ codes "windows"
    ∷ codes "wizkhalifa"
    ∷ codes "word"
    ∷ codes "work"
    ∷ codes "works"
    ∷ codes "workshop"
    ∷ codes "wpad"
    ∷ codes "ww"
    ∷ codes "wws"
    ∷ codes "www"
    ∷ codes "wwws"
    ∷ codes "wwww"
    ∷ codes "xfn"
    ∷ codes "xhtml"
    ∷ codes "xhtrnl"
    ∷ codes "xml"
    ∷ codes "xmpp"
    ∷ codes "xpg"
    ∷ codes "xrpc"
    ∷ codes "xxx"
    ∷ codes "yaml"
    ∷ codes "year"
    ∷ codes "yml"
    ∷ codes "yokoono"
    ∷ codes "yomiuri_online"
    ∷ codes "you"
    ∷ codes "yourdomain"
    ∷ codes "yourname"
    ∷ codes "yoursite"
    ∷ codes "yourusername"
    ∷ codes "yousuck2020"
    ∷ codes "youtube"
    ∷ codes "zaynmalik"
    ∷ codes "zelenskyyua"
    ∷ codes "zerohora"
    ∷ []
