-- ===== src/Rsi/Node/Replies.antt =====
-- Where the replies of the node go.
use kuka_iiqka_ros.Double.{Double}
use kuka_iiqka_ros.Xml.{Xml}
use kuka_iiqka_ros.Rsi.Udp.{Udp}
use kuka_iiqka_ros.Rsi.Node.{Node}
