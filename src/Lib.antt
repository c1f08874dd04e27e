-- ===== src/Lib.antt =====
-- Bypath: a gateway that routes LAN traffic through proxy tunnels. This library models the part
-- of the program that decides: the store of links and groups, the choice of links and engines,
-- and the configurations that are generated for the engines.
--
-- Base.antt and the files below it hold what the parts share: Boolean tests and equality
-- (Base/Tests), lists (Base/Lists), Go maps as association lists (Base/Dicts, Base/Entries),
-- the text functions of the Go packages strings and strconv (Base/Text), lines that are joined
-- and split (Base/Joins), numbers in decimal (Base/Decimal), a value or an error (Base/Results)
-- and the Go int (Base/Int).
--
-- Profile.antt and the files below it model internal/profile. Profile holds Link and Group of
-- profile.go. Profile/Cdn is cdn.go. Profile/Select is SelectBest of autoselect.go.
-- Profile/Store is the Manager of profile.go: add_link is AddLink, remove_link is RemoveLink,
-- and so on; its children hold the directory of files (Dir, Names), the shape of the map of
-- groups (Shape, Effect), the copy on disk (Saved, Sync), and what GetLink and RemoveLink do
-- (Links, Removal). Profile/Subscription is subscription.go. Profile/Parser is parser.go:
-- parse_vmess is parseVmess, and so on; Parser/Links has the links that are made, Parser/Good
-- and Parser/Fits what they have. Profile/History has the calls of all these methods as a
-- relation, and what holds after any of them.
--
-- Tunnel.antt and the files below it model internal/tunnel/configgen.go. Tunnel holds the
-- ConfigGenerator; Tunnel/Json the maps that it builds; Tunnel/Names its helpers.
-- Tunnel/Outbound is BuildSingboxOutbound, Tunnel/Chain is GenerateChainConfig, Tunnel/Strategy
-- is resolveChainStrategy of internal/tunnel/chain.go and Tunnel/Chains its StartChain and
-- StopChain, over the manager of tunnels (Chains/Starts, Chains/Owned and Chains/Cleaned have
-- the processes, Chains/Linked the ports), Tunnel/Route is singboxRoute, Tunnel/Dns is
-- singboxDNS, Tunnel/Singbox is generateSingBox, Tunnel/Xray is generateXray, and
-- Tunnel/Generate is Generate with the other two engines. A generator returns what the program
-- writes to its file. Tunnel/Manager is the Manager of internal/tunnel/tunnel.go with the
-- processes of internal/engine/process.go; Manager/Held and Manager/Orphans have which
-- processes it holds, and Manager/History its calls as a relation. Tunnel/Commands and
-- Engine/Command are the command lines that it starts.
--
-- Config.antt and Config/Defaults are internal/config/config.go. Engine/Fallback is
-- internal/engine/fallback.go (Fallback/Falls has the engines that are tried, Fallback/Leaves
-- the processes that are left); how an attempt ends is an argument. Engine/Manager is
-- internal/engine/manager.go, and Engine/Archive is what internal/engine/downloader.go writes
-- of an archive. Api/Auth is internal/api/auth.go, and Api/Handlers is handlers.go with the
-- routes of server.go (Handlers/Serves says what each route does): a request comes with its
-- route and its decoded body, and changes the managers that Profile/Store and Tunnel/Manager
-- model. Dns/Socks is the exchange of internal/dns/socksproxy.go, from the bytes that the proxy
-- sends; Socks/Exchange reads the other ends.
--
-- Geo.antt and Geo/Available are internal/geo/downloader.go, the files that Tunnel/Route asks
-- for.
--
-- Gateway.antt and the files below it model internal/gateway/gateway.go. Gateway/Life is Start
-- and Stop: the link (getActiveLink), the engine, DNS (startDNS) and the TUN device (startTun),
-- with every process that they start (Life/Tidy is what Stop needs, Life/Stopped what Start
-- leaves). Gateway/Engines is startEngineWithFallback, with the engines and links that it
-- tries, on top of Engine/Fallback and Profile/Store; Gateway/Connectivity is verifyConnection,
-- from what curl prints. Gateway/Query is how startBuiltinDNS answers, Gateway/Socks5 is
-- socks5Connect, on what the proxy sends. Gateway/Hosts has the pins in /etc/hosts,
-- Gateway/Resolv has /etc/resolv.conf, Gateway/Routing the commands of setupRouting and
-- cleanupRouting, Gateway/Children the file of child processes, and Gateway/Reload is Reload.
-- Each start of an engine has a number, by which the arguments say what the system does then;
-- how long it takes is not modelled, nor are detectNetwork and what is done to systemd-resolved
-- and dnsmasq. Gateway/Polls is the loop of waitForPort and waitForTUNDevice, on a clock in
-- milliseconds; its fuel is a try for each pause of the timeout and two more. In Gateway/Life
-- the outcome of a poll is an argument, and no chain starts by itself.
--
-- A method takes a manager and returns the new one with an error. What the operating system
-- does is an argument: the outcome of os.WriteFile (all written, refused, or a part written),
-- of os.Remove, and what a subscription address returns. A range over a map goes in an order
-- that is an argument. The locks are not modelled: each method runs as one step. A link belongs
-- to one group, since each link that reaches the manager is fresh. The path of a file is not
-- cleaned as filepath.Join does, so the theorem on a restart is for group names without a
-- slash. The functions of net/url, net, encoding/base64 and encoding/json on texts from outside
-- are arguments of the parser and the generator (Decoders, World). A file holds the JSON of a
-- group or another text; decoding what was encoded gives the fields that are written.
--
-- Texts are native strings, walked by code points; every separator is ASCII. Numbers of type
-- int are integers of any size but for strconv.Atoi, which clamps at 64 bits. All loops are
-- recursions on lists, but for the polls; printing a number takes fuel that is larger than the
-- number.
--
-- Tui.antt and the files below it model the menu of internal/tui/tui.go. Tui holds model and
-- the messages, Tui/Files what is read of the configuration and of the profiles directory (and
-- loadBenchEntries of bench.go), Tui/Home, Tui/Servers and Tui/Subs the keys of the three tabs,
-- Tui/Dialogs handleConfirm and handleInput, and Tui/Update has initialModel, Update and
-- handleKey. A step is none if it panics; else it gives the model, the job that the library is
-- to run, and what was removed. Update/Branches has the rules for the branches of a step,
-- Update/Tabs, Update/Named and Update/Keeps go through all handlers once, and Update/Reached
-- has the menus that messages lead to. What the system answers is an argument of each step
-- (Surroundings).
--
-- Not modelled: View and the jobs of internal/tui, the commands of cmd/bypath, internal/build,
-- internal/embedbin, internal/metrics, internal/updater, internal/paths and internal/pidfile,
-- which print, parse arguments or call the operating system; the engines that run in the
-- process (internal/engine/embedded.go); and the requests of internal/profile/httpscheck.go and
-- of FetchSubscription. In Tunnel/Chains the active link of the profiles is a copy, so it does
-- not follow a change of the link in its group.
pub mod Base
pub mod Profile
pub mod Tunnel
pub mod Engine
pub mod Gateway
pub mod Geo
pub mod Config
pub mod Dns
pub mod Api
pub mod Tui
