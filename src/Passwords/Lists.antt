-- ===== src/Passwords/Lists.antt =====
-- tessera/password_security/password_validator.py: the embedded lists of passwords and patterns.
use auth_manager.Base.{List, ◌∷◌, if◌then◌else◌, ◌++◌, []}
use auth_manager.Base.Chars.{Chars, codes, is_space}

abbrev pub end_word : Chars → List Chars → List Chars
end_word [] words = words
end_word (c ∷ word) words = (c ∷ word) ∷ words

-- `str.split` at white space, from the end of the text: the words behind, and the one begun.
unfoldable pub split_words : Chars → Chars × List Chars
split_words [] = ([], [])
split_words (c ∷ s) =
    let (word, words) = split_words s in
    if is_space c then ([], end_word word words) else (c ∷ word, words)

unfoldable pub all_words : List Chars → List Chars
all_words [] = []
all_words (l ∷ ls) = let (word, words) = split_words l in end_word word words ++ all_words ls

-- The list is given line by line.
unfoldable pub common_passwords_top1000 : List Chars
common_passwords_top1000 = all_words (
    codes "123456 password 12345678 qwerty 123456789 12345 1234 111111 1234567 dragon"
    ∷ codes "123123 baseball abc123 football monkey letmein shadow master 666666"
    ∷ codes "qwertyuiop 123321 mustang 1234567890 michael 654321 superman 1qaz2wsx"
    ∷ codes "7777777 121212 000000 qazwsx 123qwe killer trustno1 jordan jennifer"
    ∷ codes "zxcvbnm asdfgh hunter buster soccer harley batman andrew tigger sunshine"
    ∷ codes "iloveyou 2000 charlie robert thomas hockey ranger daniel starwars klaster"
    ∷ codes "112233 george computer michelle jessica pepper 1111 zxcvbn 555555 11111111"
    ∷ codes "131313 freedom 777777 pass maggie 159753 aaaaaa ginger princess joshua"
    ∷ codes "cheese amanda summer love ashley nicole chelsea biteme matthew access"
    ∷ codes "yankees 987654321 dallas austin thunder taylor matrix mobilemail mom"
    ∷ codes "monitor monitoring montana moon moscow"
    ∷ codes "password1 password123 password1234 password12345 pass123 passw0rd admin"
    ∷ codes "admin123 admin1234 root toor changeme welcome welcome1 welcome123 login"
    ∷ codes "logout guest default temp temporary test testing qwerty1 qwerty123"
    ∷ codes "qwerty123456 qwerty12345 1q2w3e4r 1q2w3e 1q2w3e4r5t 1qazxsw2 zaq12wsx"
    ∷ codes "q1w2e3r4 q1w2e3r4t5 qwe123 qweasd asd123 asdf1234 abc1234 abcd1234"
    ∷ codes "letmein1 iloveu loveme secret secrets 1234qwer qwer1234 p@ssw0rd"
    ∷ codes "p@ssword pa55word pa$$word passwd admin@123 root@123 welcome@123"
    ∷ codes "12121212 11223344 12341234 12344321 1234554321 123456a 123456q"
    ∷ codes "12345678a 12345678q 123456789a 123456789q 987654 9876543210 87654321"
    ∷ codes "7654321 654321a 102030 10203040 111222 123123123 123450 123451 1313"
    ∷ codes "159357 159951 202020 212121 222222 232323 252525 333333 444444 55555"
    ∷ codes "666666666 696969 77777777 789456 789456123 888888 999999 999999999"
    ∷ codes "aa123456 aaa111 aaa123 abcabc abigail access123 accio adam123 admin1"
    ∷ codes "admin2020 admin2021 admin2022 admin2023 admin2024 adobe123 agatha"
    ∷ codes "airdrop alabama alaska albert alex alex123 alexander alexandra alexis"
    ∷ codes "alfalfa alice123 allison alpha1 amazon amstel amsterdam anacleto"
    ∷ codes "anderson andrea android angel1 angels animal animals anthony apollo"
    ∷ codes "apple apple123 applepie april arizona arnold arsenal asd123456 asdasd"
    ∷ codes "asdfasdf asdfg asdfghjkl ashley1 ashton athena atlanta august australia"
    ∷ codes "avalanche austin1 avatar awesome baby babygirl babygirl1 babygurl1"
    ∷ codes "bailey1 banana bandit barbara barcelona barney baseball1 basketball"
    ∷ codes "bastian batman1 beanbear bearbeat beautiful beaver bella123 benjamin"
    ∷ codes "bentley bernard bethany beyonce bigdog biology bishop blahblah blazer"
    ∷ codes "blessed blessed1 blink182 blonde blondie blabla blowfish blue bluebird"
    ∷ codes "bobby bobcat bonnie booboo boston bradley brandon braves brazil brenda"
    ∷ codes "brian bridgestone bronco broncos brooklyn brownie bruno bsduser buddy1"
    ∷ codes "bulldog bullet butterfly butthead california calvin camaro canada candy"
    ∷ codes "captain caramel carlos carmen carol caroline carolyn cascade cat catfish"
    ∷ codes "celtic charles charlie1 charlotte cheese1 chester chester1 chevy chicago"
    ∷ codes "chicken chicken1 chocolate chopper chris christian christina christine"
    ∷ codes "christopher chuck city cleveland cocacola coconut coffee college colorado"
    ∷ codes "colombia comet comfort compaq computer1 cookie cookie1 cooper copper"
    ∷ codes "coronavirus corvette country cowboy cowboys coyote creative cricket"
    ∷ codes "crimson crystal cucumber cuddles cutie daddy daisy dakota dancer daniel1"
    ∷ codes "danielle darren darwin david1 davidson dawn daytek deadhead deanna"
    ∷ codes "december december1 deedee delight delta denali denver denver1 derek"
    ∷ codes "detroit deutsch devil diamond diana dickens dickhead digger digital"
    ∷ codes "digital1 dilbert direct dollar dolphin dolphins donna donnie dookie"
    ∷ codes "dorothy dragon1 dragons dreamer dreams driver duke dustin dwight eagle"
    ∷ codes "eagles easter easy eclipse eddie edward eeyore eileen elaine electric"
    ∷ codes "elephant elizabeth elliott elvis emerald emily eminem empire energy"
    ∷ codes "enigma enter enterprise eric erica ernest escape esther eternity europa"
    ∷ codes "explorer export express extreme falcon family fantom felix ferrari"
    ∷ codes "ferret fire firebird fish fishing flamingo florida flower flowers fluffy"
    ∷ codes "flyers forever forrest formula4 fox fox123 foxtrot france francis frank"
    ∷ codes "freddy freedom1 friday friend friends froggy frosty funny galaxy gamer"
    ∷ codes "gandalf garden garfield gemini general genesis george1 georgia german"
    ∷ codes "ghost giants gibson gilbert ginger1 girlfriend giselle goblue gofish"
    ∷ codes "golden goldfish golf golfer golfing gordon grandpa granite great green"
    ∷ codes "greenday griffey groovy guinness gunner gymnastics hacker hammer hannah"
    ∷ codes "happy happy1 hardcore harley1 harold harrison harvey hawaii hazelnut"
    ∷ codes "heart hearts heaven hello hello1 hello123 helpme henry herman hermine"
    ∷ codes "heythere hiking hilary hockey1 holland holly honda honey honeydew"
    ∷ codes "horse horses hotdog house howard hudson human hunter1 hunting iceman"
    ∷ codes "illinois imagine indiana indian indigo inspiron internet ireland irish"
    ∷ codes "isabella island israelitalia jack jackass jackie jackson jaguar james1"
    ∷ codes "jamesbond jamie january japan jasmine jason1 jasper jazz jeanette"
    ∷ codes "jeffrey jenkins jeremy jessica1 jesus1 jesuschrist jewels jimbo joanna"
    ∷ codes "john316 johnny johnson jonathan jordan23 joseph joshua1 journey joyjoy"
    ∷ codes "junior justice justin justin1 kafka kaiser kansas karen123 kathryn"
    ∷ codes "katrina kawasaki keepout keith123 kelly123 kelsey kenneth kermit"
    ∷ codes "kevin123 khankhan kicker kids kimberly king king123 kingdom kings kitty"
    ∷ codes "kitten knight knuckles koala kodiak kristen kristin krystal l1nk1n"
    ∷ codes "laddie lady ladybug lakers lakota lamer lamer123 lance laptop larry"
    ∷ codes "laser laura123 laurent ledzeppelin legend leonardo leopard letmein123"
    ∷ codes "letmein22 letters lexmark liberty library light lightning lights"
    ∷ codes "lincoln lindsey lionking little liverpool lizzard lokiloki london looney"
    ∷ codes "lorena lorraine losangeles louis louise lovely loveme1 lover loverboy"
    ∷ codes "lovers luckylucy lucky1 lucky123 lucky7 ludwig macaroni macintos maddock"
    ∷ codes "maddog madeline madison maggie1 magic magnum maiden mailman malaka"
    ∷ codes "malcolm malibu manchester manutd marcus margaret mariah marie123 marina"
    ∷ codes "marine mariners marines mariposa mark123 marlboro marley marshall"
    ∷ codes "martin marvin maryjane master1 masters matrix1 matt matthew1 maverick"
    ∷ codes "maxwell mayday mazda medical megadeth melissa member memory memphis"
    ∷ codes "mercedes mercury metallica mexico miamia michael1 michael23 michigan"
    ∷ codes "mickey midnight mikael miller million minnie miracle mission missy"
    ∷ codes "misty mitchell mollie molson monday money money1 monica monique monkey1"
    ∷ codes "monster montreal moocow mookie moomoo morning morris mother mountain"
    ∷ codes "mouse mouse1 mozart muffin mulder muppets murphy mustang1 nadine nancy"
    ∷ codes "nascar nathan national nautica ncc1701 ncc1701d ncc1701e nebraska"
    ∷ codes "nelson nemesis nesbit nestle nevada newlife newyork nicholas nicole1"
    ∷ codes "night shadow123 nightwish ninja1 nirvana nissan nobody nokia123 none"
    ∷ codes "nothing notused nugget number1 oasis oceanography office oicu812 oliver"
    ∷ codes "olivia omega one2three online opener opensesa orange oranges oregon"
    ∷ codes "orlando osiris otter ou812 overkill oxford pacers pacific packard"
    ∷ codes "packers painter palazzo palace paloma pancakes panda pandora pantera"
    ∷ codes "panther panthers parker parrot pascal passion patches patricia patrick"
    ∷ codes "paul pearjam peaches peanut peanuts pedro peewee peggy penguin pentium"
    ∷ codes "people percy persons pete peter peterpan phantom phil philip phoenix"
    ∷ codes "phoenix1 photo picnic picture pictures pierce pigeon pinky pirate"
    ∷ codes "pirates pisces pizza planet platinum player players please1 plutonium"
    ∷ codes "poetry police polly pookie pop123 popcorn popeye porsche porter portland"
    ∷ codes "power precious predator preston prince princess1 print private pro"
    ∷ codes "professor pookie1 pumpkin punkin puppy purple pyramid python q1w2e3"
    ∷ codes "quality queen quest qwerty12 rainbow raistlin rambo ranger1 rasta"
    ∷ codes "rattler raymond reader reading reality rebel reckless red123 reddog"
    ∷ codes "redneck redskin redwings reebok reggae reggie renee retards rexrick"
    ∷ codes "ricky123 riley123 ripper ripple roadrunner robbie robert1 roberto robin"
    ∷ codes "robinhood robotech rock rock123 rocket rocky rocky1 rodman roger"
    ∷ codes "rolling rommel ronald ronnie rooster rootbeer rosebud royals runner"
    ∷ codes "running russell russia rustysabrina sailor saints salmon samanthas"
    ∷ codes "samiam sammy samson sanders sandman sandy sanfrancisco sarah123 saskia"
    ∷ codes "sassy saturn sbdavid scanner scarlett school science scooby scoobydoo"
    ∷ codes "scooter scooter1 scorpion scotland scott scotty scout scruffy scuba"
    ∷ codes "seattle sebastian secret1 security seeker september serenity seven7 sexy"
    ∷ codes "shadow2 shakespeare shannon sharon shasta shawn sheba sheila shelby"
    ∷ codes "shelley sheriff sherman sherry shirley shooting shorty shotgun sidney"
    ∷ codes "sierra silver simba simple simpson single sister skater skiing skipper"
    ∷ codes "skippy skywalker slacker slayer sleeping smiley smokey snake sneakers"
    ∷ codes "snoopy snow snowball snowflake snowman soccer1 softball soldier sonics"
    ∷ codes "sophie spencer spider sponge spring spunky squad squirrel stadium star"
    ∷ codes "startrek starwars1 steelers stella steph steve123 steven sticker stormy"
    ∷ codes "stranger strawberry stretch strong stuart student studly stupid success"
    ∷ codes "sugar summer1 sunday sunset sunrise sunrise1 sunset1 sunshine1 super"
    ∷ codes "superman1 support surfer susan sweetie sweetpea sweets swimmer sydney"
    ∷ codes "system tacobaco tacos taffy tammy tangerine tank tank123 tanner tarzan"
    ∷ codes "tatu taurus taylor1 teacher techno teddybear teenage telephone tennis"
    ∷ codes "tequila teresa teresa123 test1 test123 test1234 texas thankyou theboss"
    ∷ codes "theking theone thumper thunder1 thursday tiffany tiger tiger123 tigers"
    ∷ codes "tigger1 timber timothy tinker tinkerbell tnttom tomcat tootsie tornado"
    ∷ codes "toronto toyota tractor tracy travis treasure trebor tricia trickster"
    ∷ codes "trinity trooper trucky trustno2 tucker tuesday turbo turkey turtle tweety"
    ∷ codes "twilight unicorn universal unknown usa123 vacation valentino valley"
    ∷ codes "vampire vanilla victory viking vikings vincent violet viper virgil"
    ∷ codes "virginia vista volley volleyball voyager wagner wallace walter warrior1"
    ∷ codes "washington watermel webmaster webster weenie western westside whatever"
    ∷ codes "whatever1 wheat whistler whitney wiggles william william1 willie willow"
    ∷ codes "wilson winnie winston winter wizard wolf wolves wombat wonder woodstock"
    ∷ codes "woodland wrench wright writing wwf xavier yankees1 yellow zebra zeppelin"
    ∷ codes "zombiex zombie zxc123 zxcasd"
    ∷ [])

unfoldable pub sequential_patterns : List Chars
sequential_patterns =
    codes "abc"
    ∷ codes "bcd"
    ∷ codes "cde"
    ∷ codes "def"
    ∷ codes "efg"
    ∷ codes "fgh"
    ∷ codes "ghi"
    ∷ codes "hij"
    ∷ codes "ijk"
    ∷ codes "jkl"
    ∷ codes "klm"
    ∷ codes "lmn"
    ∷ codes "mno"
    ∷ codes "nop"
    ∷ codes "opq"
    ∷ codes "pqr"
    ∷ codes "qrs"
    ∷ codes "rst"
    ∷ codes "stu"
    ∷ codes "tuv"
    ∷ codes "uvw"
    ∷ codes "vwx"
    ∷ codes "wxy"
    ∷ codes "xyz"
    ∷ codes "012"
    ∷ codes "123"
    ∷ codes "234"
    ∷ codes "345"
    ∷ codes "456"
    ∷ codes "567"
    ∷ codes "678"
    ∷ codes "789"
    ∷ codes "890"
    ∷ codes "cba"
    ∷ codes "dcb"
    ∷ codes "edc"
    ∷ codes "fed"
    ∷ codes "gfe"
    ∷ codes "hgf"
    ∷ codes "ihg"
    ∷ codes "jih"
    ∷ codes "kji"
    ∷ codes "lkj"
    ∷ codes "mlk"
    ∷ codes "nml"
    ∷ codes "onm"
    ∷ codes "pon"
    ∷ codes "qpo"
    ∷ codes "rqp"
    ∷ codes "srq"
    ∷ codes "tsr"
    ∷ codes "uts"
    ∷ codes "vut"
    ∷ codes "wvu"
    ∷ codes "xwv"
    ∷ codes "yxw"
    ∷ codes "zyx"
    ∷ codes "210"
    ∷ codes "321"
    ∷ codes "432"
    ∷ codes "543"
    ∷ codes "654"
    ∷ codes "765"
    ∷ codes "876"
    ∷ codes "987"
    ∷ codes "098"
    ∷ []
