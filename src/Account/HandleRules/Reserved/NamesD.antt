-- ===== src/Account/HandleRules/Reserved/NamesD.antt =====
-- src/account/handle/reserved.rs: the names from `kendalljenner` to `ns5`.
use manapds.Prelude.{Str, List, [], ◌∷◌}
use manapds.Prelude.Bytes.{codes}

unfoldable pub names_d : List Str
names_d =
    codes "kendalljenner"
    ∷ codes "kevinhart4real"
    ∷ codes "khloekardashian"
    ∷ codes "kimkardashian"
    ∷ codes "kingjames"
    ∷ codes "kiyo_saiore"
    ∷ codes "knowledge-base"
    ∷ codes "knowledgebase"
    ∷ codes "kourtneykardash"
    ∷ codes "kremlinrussia_e"
    ∷ codes "kyliejenner"
    ∷ codes "lab"
    ∷ codes "labs"
    ∷ codes "ladygaga"
    ∷ codes "language"
    ∷ codes "languages"
    ∷ codes "last"
    ∷ codes "ldap-status"
    ∷ codes "ldap_status"
    ∷ codes "ldapstatus"
    ∷ codes "legal"
    ∷ codes "leomessi"
    ∷ codes "lex"
    ∷ codes "lexicon"
    ∷ codes "liampayne"
    ∷ codes "license"
    ∷ codes "licenses"
    ∷ codes "liltunechi"
    ∷ codes "link"
    ∷ codes "links"
    ∷ codes "linux"
    ∷ codes "list"
    ∷ codes "lists"
    ∷ codes "livejournal"
    ∷ codes "lj"
    ∷ codes "local"
    ∷ codes "locale"
    ∷ codes "location"
    ∷ codes "log"
    ∷ codes "log-in"
    ∷ codes "log-out"
    ∷ codes "log_in"
    ∷ codes "log_out"
    ∷ codes "login"
    ∷ codes "logout"
    ∷ codes "logs"
    ∷ codes "lucianohuck"
    ∷ codes "lulaoficial"
    ∷ codes "m"
    ∷ codes "mac"
    ∷ codes "mac-os"
    ∷ codes "mac-os-x"
    ∷ codes "mac_os_x"
    ∷ codes "macos"
    ∷ codes "macosx"
    ∷ codes "mail"
    ∷ codes "mailer"
    ∷ codes "mailing"
    ∷ codes "main"
    ∷ codes "mainichi"
    ∷ codes "maintenance"
    ∷ codes "manage"
    ∷ codes "manager"
    ∷ codes "manual"
    ∷ codes "manutd"
    ∷ codes "map"
    ∷ codes "maps"
    ∷ codes "marcosmion"
    ∷ codes "mariahcarey"
    ∷ codes "marketing"
    ∷ codes "master"
    ∷ codes "matsu_bouzu"
    ∷ codes "me"
    ∷ codes "media"
    ∷ codes "member"
    ∷ codes "members"
    ∷ codes "memories"
    ∷ codes "memory"
    ∷ codes "merchandise"
    ∷ codes "message"
    ∷ codes "messages"
    ∷ codes "messenger"
    ∷ codes "mg"
    ∷ codes "microblog"
    ∷ codes "microblogs"
    ∷ codes "mileycyrus"
    ∷ codes "mine"
    ∷ codes "mis"
    ∷ codes "misc"
    ∷ codes "mms"
    ∷ codes "mob"
    ∷ codes "mobile"
    ∷ codes "model"
    ∷ codes "models"
    ∷ codes "mohamadalarefe"
    ∷ codes "money"
    ∷ codes "movie"
    ∷ codes "movies"
    ∷ codes "mp3"
    ∷ codes "mp4"
    ∷ codes "msg"
    ∷ codes "msn"
    ∷ codes "music"
    ∷ codes "mx"
    ∷ codes "my"
    ∷ codes "mymme"
    ∷ codes "mysql"
    ∷ codes "name"
    ∷ codes "named"
    ∷ codes "nan"
    ∷ codes "naomiosaka"
    ∷ codes "narendramodi"
    ∷ codes "nasa"
    ∷ codes "natgeo"
    ∷ codes "navi"
    ∷ codes "navigation"
    ∷ codes "nba"
    ∷ codes "net"
    ∷ codes "network"
    ∷ codes "networks"
    ∷ codes "new"
    ∷ codes "news"
    ∷ codes "newsletter"
    ∷ codes "neymarjr"
    ∷ codes "nfl"
    ∷ codes "nhk"
    ∷ codes "niallofficial"
    ∷ codes "nick"
    ∷ codes "nickiminaj"
    ∷ codes "nickname"
    ∷ codes "nike"
    ∷ codes "nikkei"
    ∷ codes "nil"
    ∷ codes "nintendo"
    ∷ codes "none"
    ∷ codes "notes"
    ∷ codes "noticias"
    ∷ codes "notification"
    ∷ codes "notifications"
    ∷ codes "notify"
    ∷ codes "npr"
    ∷ codes "ns"
    ∷ codes "ns1"
    ∷ codes "ns2"
    ∷ codes "ns3"
    ∷ codes "ns4"
    ∷ codes "ns5"
    ∷ []
